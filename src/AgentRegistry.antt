-- ===== src/AgentRegistry.antt =====
-- pallets/pallet-agent-registry/src/lib.rs: the six extrinsics and the two penalties. A call takes
-- the storage and returns the new storage or the error; `Frame.committed` says what is kept.
mod Types
pub mod Outcome
pub mod Index
pub mod Invariant
pub mod Calls
pub mod Preserved
pub mod Identity
pub mod Stars
pub mod Strikes
pub mod Admission
pub mod Challenge
pub mod Weights
mod Tests
pub use Types.*
use arthneura_core.Base.{
  ℕ, ◌+◌, ◌-◌, ◌≡◌, Bool, true, false, not, ◌||◌, Option, none, some, List, [], ◌∷◌, ◌++◌, ◌==◌,
  ltb, leb, if◌then◌else◌, length, saturating_add,
}
use arthneura_core.Base.Map.{lookup, get_or, contains_key, insert, remove, get2, insert2}
use arthneura_core.Base.Bytes.{le_bytes, ascii}
use arthneura_core.Errors.{
  did_already_registered, did_not_found, not_controller, agent_revoked,
  too_many_agents_for_controller, cooldown_not_expired, not_starred, cannot_star_self,
  cannot_star_same_controller, invalid_pubkey_length, invalid_signature_length,
  invalid_challenge_block, challenge_expired, invalid_quantum_proof,
  insufficient_balance_for_deposit, agent_already_revoked,
}
use arthneura_core.Errors.{RegistryError}
use arthneura_core.Frame.{
  Origin, Result, ok, err, ◌>>=◌, ◌>>◌, ensure, ok_or, ensure_signed, registry,
}
use arthneura_core.Currency.{Currency}

-- `dids.contains(&did)`
unfoldable pub contains : ℕ → List ℕ → Bool
contains x [] = false
contains x (y ∷ ys) = y == x || contains x ys

-- `dids.retain(|d| *d != did)`
unfoldable pub retain_ne : ℕ → List ℕ → List ℕ
retain_ne x [] = []
retain_ne x (y ∷ ys) = let rest = retain_ne x ys in if y == x then rest else y ∷ rest

-- `BoundedVec::try_push`
unfoldable pub try_push : ℕ → List ℕ → Option (List ℕ)
try_push x xs = if ltb (length xs) max_agents then some (xs ++ x ∷ []) else none

-- `blake2_256("ArthNeura-DID-v1" ++ pubkey)`
unfoldable pub derive_did : Crypto → List ℕ → ℕ
derive_did k pubkey = k.blake2_256 (ascii "ArthNeura-DID-v1" ++ pubkey)

-- The SCALE encoding of `(genesis_hash, did, controller, signed_at_block, signed_at_hash)`.
unfoldable pub challenge : ℕ → ℕ → ℕ → ℕ → ℕ → List ℕ
challenge genesis_hash did controller signed_at_block signed_at_hash =
    le_bytes 32 genesis_hash
    ++ (le_bytes 32 did
        ++ (le_bytes 32 controller ++ (le_bytes 4 signed_at_block ++ le_bytes 32 signed_at_hash)))

module _ {B : Type 0} where
  abbrev deposit_event : RegistryEvent → Registry B → Registry B
  deposit_event e s = record s { events = e ∷ s.events }

  -- `AgentProfiles::try_mutate` with a closure that fails on a missing profile.
  unfoldable pub try_mutate_profile :
      ℕ → (AgentProfile → AgentProfile) → Registry B → Result (Registry B)
  try_mutate_profile did f s = do
    profile ← ok_or (lookup did s.agent_profiles) (registry did_not_found)
    ok (record s { agent_profiles = insert did (f profile) s.agent_profiles })

  unfoldable pub update_profile :
      Origin → ℕ → ℕ → List ℕ → List ℕ → Registry B → Result (Registry B)
  update_profile origin did capabilities metadata label s = do
    caller ← ensure_signed origin
    profile ← ok_or (lookup did s.agent_profiles) (registry did_not_found)
    ensure (profile.controller == caller) (registry not_controller)
    ensure (not (is_revoked profile.status)) (registry agent_revoked)
    ok (
        deposit_event (agent_profile_updated did) (record s {
          agent_profiles =
              insert did
                (record profile { capabilities = capabilities; metadata = metadata; label = label })
                s.agent_profiles;
        }))

  unfoldable pub set_agent_status : Origin → ℕ → AgentStatus → Registry B → Result (Registry B)
  set_agent_status origin did new_status s = do
    caller ← ensure_signed origin
    profile ← ok_or (lookup did s.agent_profiles) (registry did_not_found)
    ensure (profile.controller == caller) (registry not_controller)
    ensure (not (is_revoked profile.status)) (registry agent_revoked)
    ok (
        deposit_event (agent_status_changed did new_status) (record s {
          agent_profiles = insert did (record profile { status = new_status }) s.agent_profiles;
          active_agent_count =
              if is_revoked new_status then s.active_agent_count - 1 else s.active_agent_count;
        }))

  unfoldable pub give_star : Config → ℕ → Origin → ℕ → ℕ → Registry B → Result (Registry B)
  unfolding contains try_mutate_profile
  give_star cfg now origin giver_did receiver s = do
    giver ← ensure_signed origin
    ensure (contains giver_did (get_or [] giver s.controller_agents)) (registry not_controller)
    ensure (not (giver_did == receiver)) (registry cannot_star_self)
    profile ← ok_or (lookup receiver s.agent_profiles) (registry did_not_found)
    ensure (not (is_revoked profile.status)) (registry agent_revoked)
    ensure (not (profile.controller == giver)) (registry cannot_star_same_controller)
    let last_star = get2 0 giver_did receiver s.star_givers
    ensure (not (ltb 0 last_star) || leb (saturating_add last_star cfg.star_cooldown) now)
        (registry cooldown_not_expired)
    t ←
        try_mutate_profile receiver
          (λ p. record p { reputation_score = saturating_add p.reputation_score 1 })
          (record s { star_givers = insert2 giver_did receiver now s.star_givers })
    ok (deposit_event (star_given giver_did receiver) t)

  unfoldable pub remove_star : Origin → ℕ → ℕ → Registry B → Result (Registry B)
  unfolding contains try_mutate_profile
  remove_star origin giver_did receiver s = do
    giver ← ensure_signed origin
    ensure (contains giver_did (get_or [] giver s.controller_agents)) (registry not_controller)
    ensure (ltb 0 (get2 0 giver_did receiver s.star_givers)) (registry not_starred)
    t ←
        try_mutate_profile receiver (λ p. record p { reputation_score = p.reputation_score - 1 })
          (record s { star_givers = insert2 giver_did receiver 0 s.star_givers })
    ok (deposit_event (star_removed giver_did receiver) t)

  unfoldable pub slash_reputation : ℕ → ℕ → Registry B → Registry B
  slash_reputation did amount s = elim (lookup did s.agent_profiles) [
    | none ↦ s
    | some profile ↦
        let new_score = profile.reputation_score - amount in
        deposit_event (reputation_slashed did amount new_score) (record s {
          agent_profiles =
              insert did (record profile { reputation_score = new_score }) s.agent_profiles;
        })
  ]

module _ {B : Type 0} (c : Currency B) (cfg : Config) where
  unfoldable pub register_agent :
      Crypto
      → System
      → Origin
      → List ℕ
      → List ℕ
      → ℕ
      → ℕ
      → List ℕ
      → List ℕ
      → Registry B
      → Result (Registry B)
  unfolding derive_did challenge try_push
  register_agent k sys origin pubkey signature signed_at_block capabilities metadata label s = do
    controller ← ensure_signed origin
    let did = derive_did k pubkey
    ensure (not (contains_key did s.agent_profiles)) (registry did_already_registered)
    ensure (ltb (length (get_or [] controller s.controller_agents)) max_agents)
        (registry too_many_agents_for_controller)
    ensure (leb signed_at_block sys.block_number) (registry invalid_challenge_block)
    ensure (leb (sys.block_number - signed_at_block) replay_window) (registry challenge_expired)
    let message =
        challenge (sys.block_hash 0) did controller signed_at_block (sys.block_hash signed_at_block)
    ensure (k.is_pubkey pubkey) (registry invalid_pubkey_length)
    ensure (k.is_signature signature) (registry invalid_signature_length)
    ensure (k.verify pubkey message signature) (registry invalid_quantum_proof)
    balances ←
        ok_or (c.reserve controller cfg.registration_deposit s.balances)
          (registry insufficient_balance_for_deposit)
    dids ←
        ok_or (try_push did (get_or [] controller s.controller_agents))
          (registry too_many_agents_for_controller)
    ok (record s {
      agent_profiles =
          insert did
            (record {
              did = did;
              controller = controller;
              capabilities = capabilities;
              reputation_score = 0;
              status = active;
              registered_at = sys.block_number;
              is_verified = true;
              quantum_scheme = ml_dsa65;
              metadata = metadata;
              label = label;
            })
            s.agent_profiles;
      controller_agents = insert controller dids s.controller_agents;
      active_agent_count = saturating_add s.active_agent_count 1;
      balances = balances;
      events = agent_registered did controller ∷ s.events;
    })

  unfoldable pub deregister_agent : Origin → ℕ → Registry B → Result (Registry B)
  unfolding retain_ne
  deregister_agent origin did s = do
    controller ← ensure_signed origin
    profile ← ok_or (lookup did s.agent_profiles) (registry did_not_found)
    ensure (profile.controller == controller) (registry not_controller)
    ensure (not (is_revoked profile.status)) (registry agent_already_revoked)
    ok (record s {
      balances = (c.unreserve controller cfg.registration_deposit s.balances).0;
      controller_agents =
          insert controller (retain_ne did (get_or [] controller s.controller_agents))
            s.controller_agents;
      agent_profiles = remove did s.agent_profiles;
      active_agent_count = s.active_agent_count - 1;
      events = agent_deregistered did controller ∷ s.events;
    })

  -- The deposit slash that a full count of strikes triggers.
  unfoldable pub slash_deposit : ℕ → AgentProfile → ℕ → Registry B → Registry B
  slash_deposit did profile strikes s =
      let (balances, remaining) =
        c.slash_reserved profile.controller cfg.deposit_slash_per_strike s.balances in
      let removed = cfg.deposit_slash_per_strike - remaining in
      record s {
        dispute_strikes = insert did 0 s.dispute_strikes;
        balances = balances;
        events = deposit_slashed did profile.controller removed strikes ∷ s.events;
      }

  -- The part of `slash_reputation_for_guilty_delivery` after the reputation slash.
  unfoldable pub add_strike : ℕ → Registry B → Registry B
  unfolding slash_deposit
  add_strike did s = elim (lookup did s.agent_profiles) [
    | none ↦ s
    | some profile ↦
        let strikes = saturating_add (get_or 0 did s.dispute_strikes) 1 in
        let counted : Registry B = record s {
          dispute_strikes = insert did strikes s.dispute_strikes;
        } in
        if ltb strikes cfg.strike_threshold
        then counted
        else slash_deposit did profile strikes counted
  ]

  unfoldable pub slash_reputation_for_guilty_delivery : ℕ → ℕ → Registry B → Registry B
  slash_reputation_for_guilty_delivery did amount s = add_strike did (slash_reputation did amount s)
