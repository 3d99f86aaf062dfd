-- ===== src/AgentRegistry/Types.antt =====
-- The data of pallets/pallet-agent-registry/src/lib.rs: profiles, storage, events, configuration.
-- DIDs, account ids and hashes are 32-byte values and stand as numbers; a `BoundedVec<u8, _>` is
-- the list of its bytes.
use arthneura_core.Base.{ℕ, Bool, true, false, List}
use arthneura_core.Base.Map.{Map, DoubleMap}

-- `MAX_PUBKEY_LEN`, `MAX_SIG_LEN`, `REPLAY_WINDOW`, and the bound of `ControllerAgents`.
abbrev pub replay_window : ℕ
replay_window = 64

abbrev pub max_agents : ℕ
max_agents = 64

pub data AgentStatus : Type 0 where
  active : AgentStatus
  suspended : AgentStatus
  revoked : AgentStatus

-- `status == AgentStatus::Revoked`
abbrev pub is_revoked : AgentStatus → Bool
is_revoked active = false
is_revoked suspended = false
is_revoked revoked = true

-- `status == AgentStatus::Active`
abbrev pub is_active : AgentStatus → Bool
is_active active = true
is_active suspended = false
is_active revoked = false

pub data QuantumScheme : Type 0 where
  ml_dsa65 : QuantumScheme

pub record AgentProfile : Type 0 where
  pub did : ℕ
  pub controller : ℕ
  pub capabilities : ℕ
  pub reputation_score : ℕ
  pub status : AgentStatus
  pub registered_at : ℕ
  pub is_verified : Bool
  pub quantum_scheme : QuantumScheme
  pub metadata : List ℕ
  pub label : List ℕ

pub data RegistryEvent : Type 0 where
  agent_registered : ℕ → ℕ → RegistryEvent
  agent_profile_updated : ℕ → RegistryEvent
  agent_status_changed : ℕ → AgentStatus → RegistryEvent
  star_given : ℕ → ℕ → RegistryEvent
  star_removed : ℕ → ℕ → RegistryEvent
  agent_deregistered : ℕ → ℕ → RegistryEvent
  reputation_slashed : ℕ → ℕ → ℕ → RegistryEvent
  deposit_slashed : ℕ → ℕ → ℕ → ℕ → RegistryEvent

-- The constants of the trait `Config`.
pub record Config : Type 0 where
  pub star_cooldown : ℕ
  pub registration_deposit : ℕ
  pub strike_threshold : ℕ
  pub deposit_slash_per_strike : ℕ

-- The storage items of the pallet, the ledger of the currency and the events so far, latest first.
pub record Registry (B : Type 0) : Type 0 where
  pub agent_profiles : Map AgentProfile
  pub controller_agents : Map (List ℕ)
  pub active_agent_count : ℕ
  pub star_givers : DoubleMap ℕ
  pub dispute_strikes : Map ℕ
  pub balances : B
  pub events : List RegistryEvent

-- `frame_system`: the current block and the hashes of past blocks (zero where none is known).
pub record System : Type 0 where
  pub block_number : ℕ
  pub block_hash : ℕ → ℕ

-- The host's hash and the crate `ml_dsa`, which are not part of the repository: a byte string is or
-- is not a key, is or is not a signature, and a signature does or does not verify a message.
pub record Crypto : Type 0 where
  pub blake2_256 : List ℕ → ℕ
  pub is_pubkey : List ℕ → Bool
  pub is_signature : List ℕ → Bool
  pub verify : List ℕ → List ℕ → List ℕ → Bool
