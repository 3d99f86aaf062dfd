-- ===== src/AgentRegistry/Stars.antt =====
-- The star ledger of pallets/pallet-agent-registry/src/lib.rs: who may star whom, the cooldown, and
-- how `remove_star` undoes `give_star`.
use arthneura_core.Base.{ℕ, ◌-◌, ◌<◌, ◌≡◌, some, ◌∷◌, arith, saturating_add, u32_max}
use mathlib.Core.Logic.{◌↔◌}
use arthneura_core.Base.Map.{lookup, insert, get2, insert2, lookup-insert, get2-insert2}
use arthneura_core.Errors.{cooldown_not_expired}
use arthneura_core.Frame.{Origin, signed, ok, err, registry}
use arthneura_core.AgentRegistry.{
  AgentProfile, Registry, Config, give_star, remove_star, star_given, star_removed,
}
use arthneura_core.AgentRegistry.Outcome.{StarAllowed, give_star-ok}

-- The storage after a star to `receiver`, whose profile is `p`.
abbrev given : {B : Type 0} → ℕ → ℕ → ℕ → AgentProfile → Registry B → Registry B
given now giver_did receiver p s = record s {
  agent_profiles =
      insert receiver (record p { reputation_score = saturating_add p.reputation_score 1 })
        s.agent_profiles;
  star_givers = insert2 giver_did receiver now s.star_givers;
  events = star_given giver_did receiver ∷ s.events;
}

-- The storage after a star to `receiver` is taken back.
abbrev taken_back : {B : Type 0} → ℕ → ℕ → AgentProfile → Registry B → Registry B
taken_back giver_did receiver p s = record s {
  agent_profiles =
      insert receiver (record p { reputation_score = p.reputation_score - 1 }) s.agent_profiles;
  star_givers = insert2 giver_did receiver 0 s.star_givers;
  events = star_removed giver_did receiver ∷ s.events;
}

module _ {B : Type 0} (cfg : Config) where
  give_star_allowed :
      (now giver giver_did receiver : ℕ) (p : AgentProfile) (s : Registry B)
      → StarAllowed cfg now giver giver_did receiver p s
      → give_star cfg now (signed giver) giver_did receiver s
        ≡ ok (given now giver_did receiver p s)
  unfolding give_star
  give_star_allowed now giver giver_did receiver p s a = ground arith

  -- A star is given exactly when a signed caller controls the giving agent, the receiver is another
  -- agent, registered, not revoked and not the caller's, and the pair's cooldown has passed.
  pub give_star_iff :
      (now : ℕ) (origin : Origin) (giver_did receiver : ℕ) (s : Registry B)
      → ((t : Registry B) × (give_star cfg now origin giver_did receiver s ≡ ok t)) ↔ (
          (giver : ℕ) × (p : AgentProfile) × (origin ≡ signed giver)
          × StarAllowed cfg now giver giver_did receiver p s)
  give_star_iff now origin giver_did receiver s = (
    λ r.
        let (t, e) = r in
        let (giver, p, who, allowed, _) = give_star-ok cfg now origin giver_did receiver s t e in
        (giver, p, who, allowed),
    λ r.
        let (giver, p, who, allowed) = r in
        (
          given now giver_did receiver p s,
          rw who (give_star_allowed now giver giver_did receiver p s allowed),
        ),
  )

  -- After a star at a block other than 0, the same agent cannot star the same receiver again before
  -- the cooldown has passed: the call fails with `CooldownNotExpired`.
  pub give_star_too_soon :
      (now later giver giver_did receiver : ℕ) (s t : Registry B)
      → 0 < now
      → give_star cfg now (signed giver) giver_did receiver s ≡ ok t
      → later < saturating_add now cfg.star_cooldown
      → give_star cfg later (signed giver) giver_did receiver t
        ≡ err (registry cooldown_not_expired)
  unfolding give_star
  give_star_too_soon now later giver giver_did receiver s t started e early =
      let (who, p, same, a, done) = give_star-ok cfg now (signed giver) giver_did receiver s t e in
      rw done (
        ground (
          arith,
          a.owned,
          a.live,
          a.other_controller,
          a.other_agent,
          a.found,
          same,
          lookup-insert receiver receiver
              (record p { reputation_score = saturating_add p.reputation_score 1 })
              s.agent_profiles,
          get2-insert2 0 giver_did receiver giver_did receiver now s.star_givers,
        ))

  -- A star that is allowed, at a block other than 0, can be taken back: the receiver's profile is
  -- what it was if its score was below `u32::MAX`, the pair's cooldown is cleared, and the same
  -- star can be given again at any block.
  pub remove-give :
      (now later giver giver_did receiver : ℕ) (p : AgentProfile) (s : Registry B)
      → 0 < now
      → StarAllowed cfg now giver giver_did receiver p s
      → p.reputation_score < u32_max
      → (t u v : Registry B) × (give_star cfg now (signed giver) giver_did receiver s ≡ ok t)
        × (remove_star (signed giver) giver_did receiver t ≡ ok u)
        × (lookup receiver u.agent_profiles ≡ some p)
        × (get2 0 giver_did receiver u.star_givers ≡ 0)
        × (give_star cfg later (signed giver) giver_did receiver u ≡ ok v)
  unfolding remove_star
  remove-give now later giver giver_did receiver p s started a room =
      let q : AgentProfile = record p { reputation_score = saturating_add p.reputation_score 1 } in
      let t : Registry B = given now giver_did receiver p s in
      let q_found = lookup-insert receiver receiver q s.agent_profiles in
      let u : Registry B = taken_back giver_did receiver q t in
      let starred = get2-insert2 0 giver_did receiver giver_did receiver now s.star_givers in
      let cleared = get2-insert2 0 giver_did receiver giver_did receiver 0 t.star_givers in
      let back =
        lookup-insert receiver receiver (record q { reputation_score = q.reputation_score - 1 })
          t.agent_profiles in
      let restored : lookup receiver u.agent_profiles ≡ some p = ground (arith, back) in
      let uncooled : get2 0 giver_did receiver u.star_givers ≡ 0 = ground (arith, cleared) in
      (
        t,
        u,
        given later giver_did receiver p u,
        give_star_allowed now giver giver_did receiver p s a,
        ground (arith, a.owned, q_found, starred),
        restored,
        uncooled,
        give_star_allowed later giver giver_did receiver p u (record {
          owned = a.owned;
          other_agent = a.other_agent;
          found = restored;
          live = a.live;
          other_controller = a.other_controller;
          cooled = λ h. absurd (omega arith);
        }),
      )
