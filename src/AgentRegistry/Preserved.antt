-- ===== src/AgentRegistry/Preserved.antt =====
-- Every call of pallets/pallet-agent-registry/src/lib.rs keeps the indexes in step.
use arthneura_core.Base.{
  ℕ, ◌+◌, ◌≤◌, ◌<◌, ◌≡◌, refl, inl, inr, some, List, [], ◌∷◌, arith, ltb, length, saturating_add,
  u32_max, Option-cases, Bool-cases,
}
use arthneura_core.Base.Map.{lookup, get_or, le-total}
use arthneura_core.Frame.{committed, committed_cases}
use arthneura_core.Currency.{Currency}
use arthneura_core.AgentRegistry.{
  AgentProfile, Registry, Config, Crypto, derive_did, slash_reputation, add_strike,
  slash_reputation_for_guilty_delivery,
}
use arthneura_core.AgentRegistry.Outcome.{
  update_profile-ok, set_agent_status-ok, give_star-ok, remove_star-ok, register_agent-ok,
  deregister_agent-ok, new_profile,
}
use arthneura_core.AgentRegistry.Invariant.{
  IsValid, live, overwrite-IsIndexed, register-IsIndexed, deregister-IsIndexed,
}
use arthneura_core.AgentRegistry.Calls.{
  Call, registers, updates, sets_status, gives, takes_back, deregisters, slashes, punishes, call,
  run,
}

module _ {B : Type 0} where
  -- A live profile is counted.
  count_pos :
      (did : ℕ) (p : AgentProfile) (s : Registry B)
      → IsValid s
      → lookup did s.agent_profiles ≡ some p
      → live p ≤ s.active_agent_count
  count_pos did p s v found = rw v.counted (le-total live did p s.agent_profiles found)

  pub slash_reputation-IsValid :
      (did amount : ℕ) (s : Registry B) → IsValid s → IsValid (slash_reputation did amount s)
  unfolding slash_reputation
  slash_reputation-IsValid did amount s v = elim (Option-cases (lookup did s.agent_profiles)) [
    | inl missing ↦ rw (missing, slash_reputation) v
    | inr (p, found) ↦
        rw (found, slash_reputation)
          (overwrite-IsIndexed did p _ _ _ _ _ v found refl refl refl refl)
  ]

  slash_reputation-count :
      (did amount : ℕ) (s : Registry B)
      → (slash_reputation did amount s).active_agent_count ≡ s.active_agent_count
  unfolding slash_reputation
  slash_reputation-count did amount s = ground arith

  abbrev GrowsByOne : Registry B → Registry B → Type 0
  GrowsByOne s t = t.active_agent_count ≤ s.active_agent_count + 1

module _ {B : Type 0} (c : Currency B) (cfg : Config) where
  add_strike-count :
      (did : ℕ) (s : Registry B)
      → (add_strike c cfg did s).active_agent_count ≡ s.active_agent_count
  unfolding add_strike
  add_strike-count did s = ground arith

  -- The strikes and the deposit are no part of the indexes.
  pub add_strike-IsValid : (did : ℕ) (s : Registry B) → IsValid s → IsValid (add_strike c cfg did s)
  unfolding add_strike
  add_strike-IsValid did s v = elim (Option-cases (lookup did s.agent_profiles)) [
    | inl missing ↦ rw (missing, add_strike) v
    | inr (p, found) ↦
        elim (Bool-cases
          (ltb (saturating_add (get_or 0 did s.dispute_strikes) 1) cfg.strike_threshold)) [
            | inl below ↦ rw (found, below, add_strike) v
            | inr reached ↦ rw (found, reached, add_strike) v
          ]
  ]

module _ {B : Type 0} (c : Currency B) (cfg : Config) (k : Crypto) where
  -- Every extrinsic and both penalties keep the three indexes in step, as long as the `u32` counter
  -- of live agents has room.
  pub call-IsValid :
      (x : Call) (s : Registry B)
      → IsValid s
      → s.active_agent_count < u32_max
      → IsValid (committed s (call c cfg k x s))
  unfolding call
  call-IsValid (registers sys o pubkey signature n capabilities metadata label) s v room =
      committed_cases IsValid s _ v λ t e.
        let (who, b, _, allowed, _, done) =
          register_agent-ok c cfg k sys o pubkey signature n capabilities metadata label s t e in
        let counted : saturating_add s.active_agent_count 1 ≡ s.active_agent_count + 1 =
          omega arith in
        rw (done, counted)
          (register-IsIndexed
            (new_profile (derive_did k pubkey) who capabilities sys.block_number metadata label) _ _
            _ v allowed.fresh refl refl allowed.room)
  call-IsValid (updates o did capabilities metadata label) s v room =
      committed_cases IsValid s _ v λ t e.
        let (p, found, _, _, done) = update_profile-ok o did capabilities metadata label s t e in
        rw done (overwrite-IsIndexed did p _ _ _ _ _ v found refl refl refl refl)
  call-IsValid (sets_status o did new_status) s v room = committed_cases IsValid s _ v λ t e.
      let (p, found, _, is_live, done) = set_agent_status-ok o did new_status s t e in
      rw done (
        overwrite-IsIndexed did p _ _ _ _ _ v found refl refl refl
          (ground (arith, count_pos did p s v found)))
  call-IsValid (gives now o giver receiver) s v room = committed_cases IsValid s _ v λ t e.
      let (_, p, _, allowed, done) = give_star-ok cfg now o giver receiver s t e in
      rw done (overwrite-IsIndexed receiver p _ _ _ _ _ v allowed.found refl refl refl refl)
  call-IsValid (takes_back o giver receiver) s v room = committed_cases IsValid s _ v λ t e.
      let (_, p, _, _, _, found, done) = remove_star-ok o giver receiver s t e in
      rw done (overwrite-IsIndexed receiver p _ _ _ _ _ v found refl refl refl refl)
  call-IsValid (deregisters o did) s v room = committed_cases IsValid s _ v λ t e.
      let (p, found, _, is_live, done) = deregister_agent-ok c cfg o did s t e in
      rw done (deregister-IsIndexed did p _ _ _ v found is_live)
  call-IsValid (slashes did amount) s v room = slash_reputation-IsValid did amount s v
  call-IsValid (punishes did amount) s v room =
      unfold slash_reputation_for_guilty_delivery in
      add_strike-IsValid c cfg did (slash_reputation did amount s)
        (slash_reputation-IsValid did amount s v)

  -- One call adds at most one live agent.
  call_count : (x : Call) (s : Registry B) → GrowsByOne s (committed s (call c cfg k x s))
  unfolding call
  call_count (registers sys o pubkey signature n capabilities metadata label) s =
      committed_cases (GrowsByOne s) s _ (omega arith) λ t e.
        let (_, _, _, _, _, done) =
          register_agent-ok c cfg k sys o pubkey signature n capabilities metadata label s t e in
        rw done (omega arith)
  call_count (updates o did capabilities metadata label) s =
      committed_cases (GrowsByOne s) s _ (omega arith) λ t e.
        let (_, _, _, _, done) = update_profile-ok o did capabilities metadata label s t e in
        rw done (omega arith)
  call_count (sets_status o did new_status) s =
      committed_cases (GrowsByOne s) s _ (omega arith) λ t e.
        let (_, _, _, _, done) = set_agent_status-ok o did new_status s t e in
        rw done (ground arith)
  call_count (gives now o giver receiver) s =
      committed_cases (GrowsByOne s) s _ (omega arith) λ t e.
        let (_, _, _, _, done) = give_star-ok cfg now o giver receiver s t e in
        rw done (omega arith)
  call_count (takes_back o giver receiver) s =
      committed_cases (GrowsByOne s) s _ (omega arith) λ t e.
        let (_, _, _, _, _, _, done) = remove_star-ok o giver receiver s t e in
        rw done (omega arith)
  call_count (deregisters o did) s =
      committed_cases (GrowsByOne s) s _ (omega arith) λ t e.
        let (_, _, _, _, done) = deregister_agent-ok c cfg o did s t e in rw done (omega arith)
  call_count (slashes did amount) s = omega (arith, slash_reputation-count did amount s)
  call_count (punishes did amount) s =
      unfold slash_reputation_for_guilty_delivery in
      omega (
        arith,
        slash_reputation-count did amount s,
        add_strike-count c cfg did (slash_reputation did amount s),
      )

  -- A valid registry stays valid over any history of calls that is too short to fill the `u32`
  -- counter: the counter is the number of profiles that are not revoked, the profiles and the lists
  -- of the controllers agree both ways, and no list is longer than 64.
  pub run-IsValid :
      (xs : List Call) (s : Registry B)
      → IsValid s
      → s.active_agent_count + length xs ≤ u32_max
      → IsValid (run c cfg k xs s)
  unfolding run
  run-IsValid [] s v room = v
  run-IsValid (x ∷ xs) s v room =
      run-IsValid xs (committed s (call c cfg k x s)) (call-IsValid x s v (omega arith))
        (omega (arith, call_count x s))
