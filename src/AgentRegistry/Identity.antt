-- ===== src/AgentRegistry/Identity.antt =====
-- What no call of pallets/pallet-agent-registry/src/lib.rs can change: the identity part of a
-- profile, and anything but the score of a revoked one.
use arthneura_core.Base.{
  ℕ, ◌≡◌, ◌∙◌, ◌⊎◌, refl, inl, inr, true, false, some, List, [], ◌∷◌, arith, ◌==◌, Option-cases,
  Bool-cases,
}
use arthneura_core.Base.Map.{Map, lookup, insert, lookup-insert, lookup-remove}
use arthneura_core.Frame.{committed, committed_cases}
use arthneura_core.Currency.{Currency}
use arthneura_core.AgentRegistry.{
  AgentProfile, Registry, Config, Crypto, revoked, is_revoked, derive_did, slash_reputation,
  add_strike, slash_reputation_for_guilty_delivery,
}
use arthneura_core.AgentRegistry.Outcome.{
  update_profile-ok, set_agent_status-ok, give_star-ok, remove_star-ok, register_agent-ok,
  deregister_agent-ok,
}
use arthneura_core.AgentRegistry.Calls.{
  Call, registers, updates, sets_status, gives, takes_back, deregisters, slashes, punishes, call,
  run,
}

-- The fields that only the owner may set, and only while the profile is not revoked.
pub record SameRecord (p q : AgentProfile) : Type 0 where
  pub did : q.did ≡ p.did
  pub controller : q.controller ≡ p.controller
  pub capabilities : q.capabilities ≡ p.capabilities
  pub status : q.status ≡ p.status
  pub registered_at : q.registered_at ≡ p.registered_at
  pub metadata : q.metadata ≡ p.metadata
  pub label : q.label ≡ p.label

-- The profile under `did` is still there, and is `p` but for its score.
abbrev pub Keeps : ℕ → AgentProfile → Map AgentProfile → Type 0
Keeps did p profiles = (q : AgentProfile) × (lookup did profiles ≡ some q) × SameRecord p q

SameRecord-trans : {p q r : AgentProfile} → SameRecord p q → SameRecord q r → SameRecord p r
SameRecord-trans a b = record {
  did = b.did ∙ a.did;
  controller = b.controller ∙ a.controller;
  capabilities = b.capabilities ∙ a.capabilities;
  status = b.status ∙ a.status;
  registered_at = b.registered_at ∙ a.registered_at;
  metadata = b.metadata ∙ a.metadata;
  label = b.label ∙ a.label;
}

SameRecord-refl : (p : AgentProfile) → SameRecord p p
SameRecord-refl p = record {
  did = refl;
  controller = refl;
  capabilities = refl;
  status = refl;
  registered_at = refl;
  metadata = refl;
  label = refl;
}

-- A write to another profile, or one of a new score, keeps it.
insert-Keeps :
    (did j : ℕ) (p r r' : AgentProfile) (profiles : Map AgentProfile)
    → lookup did profiles ≡ some p
    → lookup j profiles ≡ some r
    → (r' ≡ record r { reputation_score = r'.reputation_score }) ⊎ (is_revoked r.status ≡ false)
    → is_revoked p.status ≡ true
    → Keeps did p (insert j r' profiles)
insert-Keeps did j p r r' profiles mine found allowed dead = elim (Bool-cases (j == did)) [
  | inl hit ↦ (r', rw (lookup-insert, hit), ground arith)
  | inr miss ↦ (p, rw (lookup-insert, miss) mine, SameRecord-refl p)
]

module _ {B : Type 0} where
  slash_reputation-Keeps :
      (did j amount : ℕ) (p : AgentProfile) (s : Registry B)
      → lookup did s.agent_profiles ≡ some p
      → is_revoked p.status ≡ true
      → Keeps did p (slash_reputation j amount s).agent_profiles
  unfolding slash_reputation
  slash_reputation-Keeps did j amount p s mine dead =
      elim (Option-cases (lookup j s.agent_profiles)) [
        | inl missing ↦ rw (missing, slash_reputation) (p, mine, SameRecord-refl p)
        | inr (r, found) ↦
            rw (found, slash_reputation)
              (insert-Keeps did j p r _ s.agent_profiles mine found (inl refl) dead)
      ]

module _ {B : Type 0} (c : Currency B) (cfg : Config) where
  -- A strike writes no profile.
  pub add_strike-profiles :
      (did : ℕ) (s : Registry B) → (add_strike c cfg did s).agent_profiles ≡ s.agent_profiles
  unfolding add_strike
  add_strike-profiles did s = ground arith

module _ {B : Type 0} (c : Currency B) (cfg : Config) (k : Crypto) where
  call-Keeps :
      (x : Call) (did : ℕ) (p : AgentProfile) (s : Registry B)
      → lookup did s.agent_profiles ≡ some p
      → is_revoked p.status ≡ true
      → Keeps did p (committed s (call c cfg k x s)).agent_profiles
  unfolding call
  call-Keeps (registers sys o pubkey signature n capabilities metadata label) did p s mine dead =
      committed_cases (λ t. Keeps did p t.agent_profiles) s _ (p, mine, SameRecord-refl p)
        λ t e.
          let (_, _, _, allowed, _, done) =
            register_agent-ok c cfg k sys o pubkey signature n capabilities metadata label s t e in
          elim (Bool-cases (derive_did k pubkey == did)) [
            | inl hit ↦ let fresh = allowed.fresh in absurd (ground arith)
            | inr miss ↦ rw done (p, rw (lookup-insert, miss) mine, SameRecord-refl p)
          ]
  call-Keeps (updates o j capabilities metadata label) did p s mine dead =
      committed_cases (λ t. Keeps did p t.agent_profiles) s _ (p, mine, SameRecord-refl p)
        λ t e.
          let (r, found, _, is_live, done) =
            update_profile-ok o j capabilities metadata label s t e in
          rw done (insert-Keeps did j p r _ s.agent_profiles mine found (inr is_live) dead)
  call-Keeps (sets_status o j new_status) did p s mine dead =
      committed_cases (λ t. Keeps did p t.agent_profiles) s _ (p, mine, SameRecord-refl p)
        λ t e.
          let (r, found, _, is_live, done) = set_agent_status-ok o j new_status s t e in
          rw done (insert-Keeps did j p r _ s.agent_profiles mine found (inr is_live) dead)
  call-Keeps (gives now o giver j) did p s mine dead =
      committed_cases (λ t. Keeps did p t.agent_profiles) s _ (p, mine, SameRecord-refl p)
        λ t e.
          let (_, r, _, allowed, done) = give_star-ok cfg now o giver j s t e in
          rw done (insert-Keeps did j p r _ s.agent_profiles mine allowed.found (inl refl) dead)
  call-Keeps (takes_back o giver j) did p s mine dead =
      committed_cases (λ t. Keeps did p t.agent_profiles) s _ (p, mine, SameRecord-refl p)
        λ t e.
          let (_, r, _, _, _, found, done) = remove_star-ok o giver j s t e in
          rw done (insert-Keeps did j p r _ s.agent_profiles mine found (inl refl) dead)
  call-Keeps (deregisters o j) did p s mine dead =
      committed_cases (λ t. Keeps did p t.agent_profiles) s _ (p, mine, SameRecord-refl p)
        λ t e.
          let (r, found, _, is_live, done) = deregister_agent-ok c cfg o j s t e in
          rw done (p, ground (arith, lookup-remove did j s.agent_profiles), SameRecord-refl p)
  call-Keeps (slashes j amount) did p s mine dead =
      slash_reputation-Keeps did j amount p s mine dead
  call-Keeps (punishes j amount) did p s mine dead =
      unfold slash_reputation_for_guilty_delivery in
      rw (add_strike-profiles c cfg j (slash_reputation j amount s))
        (slash_reputation-Keeps did j amount p s mine dead)

  -- `Revoked` is terminal: over any history of calls a revoked profile stays in the registry, stays
  -- revoked, and keeps its DID, controller, capabilities, registration block, metadata and label.
  pub run-Keeps_revoked :
      (xs : List Call) (did : ℕ) (p : AgentProfile) (s : Registry B)
      → lookup did s.agent_profiles ≡ some p
      → p.status ≡ revoked
      → (q : AgentProfile) × (lookup did (run c cfg k xs s).agent_profiles ≡ some q)
        × SameRecord p q
  unfolding run
  run-Keeps_revoked [] did p s mine dead = (p, mine, SameRecord-refl p)
  run-Keeps_revoked (x ∷ xs) did p s mine dead =
      let (q, q_found, same) = call-Keeps x did p s mine (rw dead) in
      let (r, r_found, same') =
        run-Keeps_revoked xs did q (committed s (call c cfg k x s)) q_found (same.status ∙ dead) in
      (r, r_found, SameRecord-trans same same')
