-- ===== src/Runtime.antt =====
-- The runtime: runtime/src/adapters/ and the pallet configurations of runtime/src/configs/mod.rs,
-- which plug pallet-agent-registry and pallet-escrow into the traits of pallet-vector-db.
pub mod Adapters
pub mod History
pub mod Backing
pub mod Stranded
pub mod Reserves
pub mod Payment
pub mod Example
mod Tests
use arthneura_core.Base.{ℕ, ◌*◌, Bool, false, ◌&&◌, Option, none, some, List, [], ◌∷◌}
use arthneura_core.Base.Map.{Map, lookup}
use arthneura_core.Frame.{Result, ok, err, ◌>>=◌, committed}
use arthneura_core.Currency.{Currency}
use arthneura_core.Escrow.{Escrow, EscrowRecord, EscrowEvent}
use arthneura_core.Escrow
use arthneura_core.AgentRegistry.{
  Registry, Crypto, System, AgentStatus, is_active, slash_reputation,
  slash_reputation_for_guilty_delivery,
}
use arthneura_core.AgentRegistry
use arthneura_core.VectorDb.{VectorDb, AgentLookup, ReputationHandler, EscrowHandler, Hashing}
use arthneura_core.VectorDb

-- What pallet-vector-db reaches through its traits: the storage of the registry, with the one ledger
-- of the runtime in it, and the storage of the escrow pallet.
pub record World (B : Type 0) : Type 0 where
  pub agents : Registry B
  pub escrows : Map EscrowRecord
  pub escrow_events : List EscrowEvent

-- The escrow pallet's share of the runtime, and the runtime after that pallet has run.
abbrev pub escrow_part : {B : Type 0} → World B → Escrow B
escrow_part w = record {
  escrows = w.escrows;
  balances = w.agents.balances;
  events = w.escrow_events;
}

abbrev pub with_escrow : {B : Type 0} → World B → Escrow B → World B
with_escrow w e = record {
  agents = record (w.agents) { balances = e.balances };
  escrows = e.escrows;
  escrow_events = e.events;
}

-- `UNIT`, 10 ^ 12 of the smallest denomination.
abbrev pub unit : ℕ
unit = 1_000_000_000_000

-- `impl pallet_agent_registry::Config for Runtime`
abbrev pub registry_config : AgentRegistry.Config
registry_config = record {
  star_cooldown = 1200;
  registration_deposit = 100 * unit;
  strike_threshold = 10;
  deposit_slash_per_strike = 10 * unit;
}

-- `ProviderGuiltySlash` and `FalseDisputeSlash`
abbrev pub provider_guilty_slash : ℕ
provider_guilty_slash = 5

abbrev pub false_dispute_slash : ℕ
false_dispute_slash = 2

module _ {B : Type 0} where
  unfoldable pub controller_of : World B → ℕ → Option ℕ
  controller_of w did = elim (lookup did w.agents.agent_profiles) [
    | none ↦ none
    | some profile ↦ some profile.controller
  ]

  unfoldable pub is_active_verified : World B → ℕ → Bool
  is_active_verified w did = elim (lookup did w.agents.agent_profiles) [
    | none ↦ false
    | some profile ↦ is_active profile.status && profile.is_verified
  ]

  abbrev pub agent_registry_adapter : AgentLookup (World B)
  agent_registry_adapter = record {
    controller_of = controller_of;
    is_active_verified = is_active_verified;
  }

module _ {B : Type 0} (c : Currency B) where
  unfoldable pub penalize_provider : ℕ → World B → World B
  penalize_provider did w = record w {
    agents =
        slash_reputation_for_guilty_delivery c registry_config did provider_guilty_slash w.agents;
  }

  unfoldable pub penalize_false_disputer : ℕ → World B → World B
  penalize_false_disputer did w = record w {
    agents = slash_reputation did false_dispute_slash w.agents;
  }

  abbrev pub reputation_handler_adapter : ReputationHandler (World B)
  reputation_handler_adapter = record {
    penalize_provider = penalize_provider;
    penalize_false_disputer = penalize_false_disputer;
  }

  unfoldable pub lock : ℕ → ℕ → ℕ → ℕ → ℕ → World B → Result (World B)
  lock now escrow_id payer payee amount w = do
    e ← Escrow.lock c now escrow_id payer payee amount (escrow_part w)
    ok (with_escrow w e)

  unfoldable pub release : ℕ → World B → Result (World B)
  release escrow_id w = do e ← Escrow.release c escrow_id (escrow_part w); ok (with_escrow w e)

  unfoldable pub refund : ℕ → World B → Result (World B)
  refund escrow_id w = do e ← Escrow.refund c escrow_id (escrow_part w); ok (with_escrow w e)

  abbrev pub escrow_adapter : EscrowHandler (World B)
  escrow_adapter = record { lock = lock; release = release; refund = refund }

  -- `impl pallet_vector_db::Config for Runtime`
  abbrev pub vector_db_config : VectorDb.Config (World B)
  vector_db_config = record {
    agents = agent_registry_adapter;
    reputation = reputation_handler_adapter;
    escrow = escrow_adapter;
    dispute_window = 14400;
    max_commitment_lifetime = 100800;
  }
