-- ===== src/AgentRegistry/Invariant.antt =====
-- The invariant that ties the three indexes of pallets/pallet-agent-registry/src/lib.rs together,
-- and that every extrinsic and both penalties keep it.
use arthneura_core.Base.{
  ℕ, ◌+◌, ◌-◌, ◌≤◌, ◌<◌, ◌≡◌, inl, inr, true, false, some, none, List, [], ◌∷◌, ◌++◌, arith, ◌==◌,
  if◌then◌else◌, length, Bool-cases,
}
use arthneura_core.Base.Map.{
  Map, Unique, lookup, get_or, insert, remove, total, lookup-insert, lookup-remove, insert-Unique,
  remove-Unique, total-insert, total-insert_new, total-remove,
}
use arthneura_core.AgentRegistry.{
  AgentProfile, Registry, is_revoked, max_agents, contains, retain_ne,
}
use arthneura_core.AgentRegistry.Index.{
  contains-append_one, contains-retain_ne, length-retain_ne-le, length-append_one,
}

-- 1 for a profile that is not revoked.
abbrev pub live : AgentProfile → ℕ
live p = if is_revoked p.status then 0 else 1

pub record IsIndexed (profiles : Map AgentProfile) (index : Map (List ℕ)) (count : ℕ) : Type 0 where
  -- No DID has two profiles.
  pub keyed : Unique profiles
  -- The counter is the number of profiles that are not revoked.
  pub counted : count ≡ total live profiles
  -- A profile stands under its own DID, and is verified.
  pub named :
      (did : ℕ) (p : AgentProfile)
      → lookup did profiles ≡ some p
      → (p.did ≡ did) × (p.is_verified ≡ true)
  -- Every profile is listed under its controller,
  pub listed :
      (did : ℕ) (p : AgentProfile)
      → lookup did profiles ≡ some p
      → contains did (get_or [] p.controller index) ≡ true
  -- and what is listed under an account is a profile that it controls.
  pub controlled :
      (who did : ℕ)
      → contains did (get_or [] who index) ≡ true
      → (p : AgentProfile) × (lookup did profiles ≡ some p) × (p.controller ≡ who)
  pub bounded : (who : ℕ) → length (get_or [] who index) ≤ max_agents

abbrev pub IsValid : {B : Type 0} → Registry B → Type 0
IsValid s = IsIndexed s.agent_profiles s.controller_agents s.active_agent_count

-- Overwriting a profile by one with the same DID, controller and verification.
pub overwrite-IsIndexed :
    (did : ℕ) (p p' : AgentProfile) (profiles : Map AgentProfile) (index : Map (List ℕ))
    (count count' : ℕ)
    → IsIndexed profiles index count
    → lookup did profiles ≡ some p
    → p'.did ≡ p.did
    → p'.controller ≡ p.controller
    → p'.is_verified ≡ p.is_verified
    → count' + live p ≡ count + live p'
    → IsIndexed (insert did p' profiles) index count'
overwrite-IsIndexed did p p' profiles index count count' v found same_did same_controller
      same_verified change =
    record {
      keyed = insert-Unique did p' profiles v.keyed;
      counted = omega (arith, total-insert live did p' p profiles found, v.counted);
      named = λ d q e.
          ground (arith, lookup-insert d did p' profiles, v.named d q, v.named did p found);
      listed = λ d q e.
          ground (arith, lookup-insert d did p' profiles, v.listed d q, v.listed did p found);
      controlled = λ who d e.
          let (q, q_found, owner) = v.controlled who d e in
          elim (Bool-cases (did == d)) [
            | inl hit ↦ (p', rw (lookup-insert, hit), ground arith)
            | inr miss ↦ (q, rw (lookup-insert, miss) q_found, owner)
          ];
      bounded = v.bounded;
    }

-- Adding a profile under a new DID, and listing it under its controller.
pub register-IsIndexed :
    (p : AgentProfile) (profiles : Map AgentProfile) (index : Map (List ℕ)) (count : ℕ)
    → IsIndexed profiles index count
    → lookup p.did profiles ≡ none
    → is_revoked p.status ≡ false
    → p.is_verified ≡ true
    → length (get_or [] p.controller index) < max_agents
    → IsIndexed
        (insert p.did p profiles)
        (insert p.controller (get_or [] p.controller index ++ p.did ∷ []) index)
        (count + 1)
register-IsIndexed p profiles index count v fresh is_live verified room = record {
  keyed = insert-Unique p.did p profiles v.keyed;
  counted = ground (arith, total-insert_new live p.did p profiles fresh, v.counted);
  named = λ d q e. ground (arith, lookup-insert d p.did p profiles, v.named d q);
  listed = λ d q e. ground (
    arith,
    lookup-insert d p.did p profiles,
    lookup-insert q.controller p.controller (get_or [] p.controller index ++ p.did ∷ []) index,
    contains-append_one d p.did (get_or [] p.controller index),
    v.listed d q,
  );
  controlled = λ who d e.
      let at_who =
        lookup-insert who p.controller (get_or [] p.controller index ++ p.did ∷ []) index in
      let at_d = contains-append_one d p.did (get_or [] p.controller index) in
      elim (Bool-cases (p.did == d)) [
        | inl hit ↦ (
          p,
          rw (lookup-insert, hit),
          elim (Bool-cases (p.controller == who)) [
            | inl owner ↦ ground arith
            | inr stranger ↦
                let (q, q_found, _) = v.controlled who d (ground (arith, at_who)) in
                absurd (ground arith)
          ],
        )
        | inr miss ↦
            let (q, q_found, owner) = v.controlled who d (ground (arith, at_who, at_d)) in
            (q, rw (lookup-insert, miss) q_found, owner)
      ];
  bounded = λ who. ground (
    arith,
    lookup-insert who p.controller (get_or [] p.controller index ++ p.did ∷ []) index,
    length-append_one p.did (get_or [] p.controller index),
    v.bounded who,
  );
}

-- Taking a profile out, and off its controller's list.
pub deregister-IsIndexed :
    (did : ℕ) (p : AgentProfile) (profiles : Map AgentProfile) (index : Map (List ℕ)) (count : ℕ)
    → IsIndexed profiles index count
    → lookup did profiles ≡ some p
    → is_revoked p.status ≡ false
    → IsIndexed
        (remove did profiles)
        (insert p.controller (retain_ne did (get_or [] p.controller index)) index)
        (count - 1)
deregister-IsIndexed did p profiles index count v found is_live = record {
  keyed = remove-Unique did profiles v.keyed;
  counted = ground (arith, total-remove live did p profiles v.keyed found, v.counted);
  named = λ d q e. ground (arith, lookup-remove d did profiles, v.named d q);
  listed = λ d q e. ground (
    arith,
    lookup-remove d did profiles,
    lookup-insert q.controller p.controller (retain_ne did (get_or [] p.controller index)) index,
    contains-retain_ne d did (get_or [] p.controller index),
    v.listed d q,
  );
  controlled = λ who d e.
      let at_who =
        lookup-insert who p.controller (retain_ne did (get_or [] p.controller index)) index in
      let at_d = contains-retain_ne d did (get_or [] p.controller index) in
      let (q, q_found, owner) = v.controlled who d (ground (arith, at_who, at_d)) in
      (q, ground (arith, lookup-remove d did profiles, at_who, at_d), owner);
  bounded = λ who. ground (
    arith,
    lookup-insert who p.controller (retain_ne did (get_or [] p.controller index)) index,
    length-retain_ne-le did (get_or [] p.controller index),
    v.bounded who,
    v.bounded p.controller,
  );
}
