-- ===== src/AgentRegistry/Strikes.antt =====
-- Strikes and the deposit in pallets/pallet-agent-registry/src/lib.rs: when a confirmed-guilty
-- verdict burns part of the registration deposit, and what is left for `deregister_agent`.
use arthneura_core.Base.{
  ℕ, zero, suc, ◌+◌, ◌-◌, ◌*◌, ◌∙◌, ap, ◌<◌, ◌≤◌, ◌≡◌, refl, ◌≢◌, some, none, ◌∷◌, arith,
  saturating_add, u32_max, min,
}
use arthneura_core.Base.Map.{lookup, get_or, insert, lookup-insert, lookup-remove}
use arthneura_core.Frame.{Origin, ok}
use arthneura_core.Currency.{Currency, IsReservable}
use arthneura_core.AgentRegistry.{
  AgentProfile, Registry, Config, deregister_agent, slash_reputation, add_strike,
  slash_reputation_for_guilty_delivery, deposit_slashed, reputation_slashed,
}
use arthneura_core.AgentRegistry.Outcome.{deregister_agent-ok}

-- The strikes against an agent.
abbrev pub strikes : {B : Type 0} → ℕ → Registry B → ℕ
strikes did s = get_or 0 did s.dispute_strikes

abbrev pub slashed_profile : ℕ → AgentProfile → AgentProfile
slashed_profile amount p = record p { reputation_score = p.reputation_score - amount }

module _ {B : Type 0} (c : Currency B) (cfg : Config) where
  -- `n` guilty verdicts against one agent, one after the other.
  pub punish_times : ℕ → ℕ → ℕ → Registry B → Registry B
  punish_times zero did amount s = s
  punish_times (suc n) did amount s =
      slash_reputation_for_guilty_delivery c cfg did amount (punish_times n did amount s)

  -- A verdict below the threshold adds a strike and takes `amount` off the score, floored at 0.
  guilty_below :
      (did amount : ℕ) (p : AgentProfile) (s : Registry B)
      → lookup did s.agent_profiles ≡ some p
      → strikes did s + 1 < cfg.strike_threshold
      → cfg.strike_threshold ≤ u32_max
      → let t : Registry B = slash_reputation_for_guilty_delivery c cfg did amount s in
        (lookup did t.agent_profiles ≡ some (slashed_profile amount p))
        × (strikes did t ≡ strikes did s + 1)
        × (t.balances ≡ s.balances)
  unfolding slash_reputation_for_guilty_delivery slash_reputation add_strike
  guilty_below did amount p s found below small =
      let written = lookup-insert did did (slashed_profile amount p) s.agent_profiles in
      let counted = lookup-insert did did (saturating_add (strikes did s) 1) s.dispute_strikes in
      (
        ground (arith, written, counted),
        ground (arith, written, counted),
        ground (arith, written, counted),
      )

  -- The verdict that reaches the threshold takes the slash and resets the count.
  pub guilty_at :
      (did amount : ℕ) (p : AgentProfile) (s : Registry B)
      → lookup did s.agent_profiles ≡ some p
      → cfg.strike_threshold ≤ strikes did s + 1
      → cfg.strike_threshold ≤ u32_max
      → let t : Registry B = slash_reputation_for_guilty_delivery c cfg did amount s in
        (lookup did t.agent_profiles ≡ some (slashed_profile amount p))
        × (strikes did t ≡ 0)
        × (t.balances ≡ (c.slash_reserved p.controller cfg.deposit_slash_per_strike s.balances).0)
  unfolding slash_reputation_for_guilty_delivery slash_reputation add_strike
  guilty_at did amount p s found reached small =
      let written = lookup-insert did did (slashed_profile amount p) s.agent_profiles in
      let reset =
        lookup-insert did did 0 (insert did (saturating_add (strikes did s) 1) s.dispute_strikes) in
      (
        ground (arith, written, reset),
        ground (arith, written, reset),
        ground (arith, written, reset),
      )

  -- The agent after `n` verdicts that do not reach the threshold.
  punish_times_below :
      (n did amount : ℕ) (p : AgentProfile) (s : Registry B)
      → lookup did s.agent_profiles ≡ some p
      → strikes did s + n < cfg.strike_threshold
      → cfg.strike_threshold ≤ u32_max
      → let t : Registry B = punish_times n did amount s in
        (lookup did t.agent_profiles ≡ some (slashed_profile (n * amount) p))
        × (strikes did t ≡ strikes did s + n)
        × (t.balances ≡ s.balances)
  unfolding punish_times
  punish_times_below zero did amount p s found below small = (
    found ∙ ap (λ (r : ℕ). some (record p { reputation_score = r })) (omega arith),
    omega arith,
    refl,
  )
  punish_times_below (suc n) did amount p s found below small =
      let (found', count, same) = punish_times_below n did amount p s found (omega arith) small in
      let (found'', count', same') =
        guilty_below did amount (slashed_profile (n * amount) p) (punish_times n did amount s)
          found' (omega arith) small in
      (
        found'' ∙ ap (λ (r : ℕ). some (record p { reputation_score = r })) (omega arith),
        omega arith,
        same' ∙ same,
      )

  -- From a clean record, the first `StrikeThreshold - 1` guilty verdicts leave the ledger alone; the
  -- next one takes `DepositSlashPerStrike` from the controller's reserve, once, and clears the count.
  -- Each verdict takes `amount` off the score, floored at 0.
  pub punish_times_cycle :
      (n did amount : ℕ) (p : AgentProfile) (s : Registry B)
      → lookup did s.agent_profiles ≡ some p
      → strikes did s ≡ 0
      → cfg.strike_threshold ≡ suc n
      → cfg.strike_threshold ≤ u32_max
      → let t : Registry B = punish_times n did amount s in
        let u : Registry B = punish_times (suc n) did amount s in
        (t.balances ≡ s.balances)
        × (u.balances ≡ (c.slash_reserved p.controller cfg.deposit_slash_per_strike s.balances).0)
        × (strikes did u ≡ 0)
        × (lookup did u.agent_profiles
            ≡ some (record p { reputation_score = p.reputation_score - suc n * amount }))
  unfolding punish_times
  punish_times_cycle n did amount p s found clean threshold small =
      let (found', count, same) = punish_times_below n did amount p s found (omega arith) small in
      let (found'', reset, paid) =
        guilty_at did amount (slashed_profile (n * amount) p) (punish_times n did amount s) found'
          (omega arith) small in
      (
        same,
        paid ∙ ap (λ b. (c.slash_reserved p.controller cfg.deposit_slash_per_strike b).0) same,
        reset,
        found'' ∙ ap (λ (r : ℕ). some (record p { reputation_score = r })) (omega arith),
      )

module _ {B : Type 0} (c : Currency B) (laws : IsReservable c) (cfg : Config) where
  -- The verdict that reaches the threshold burns as much of the slash as the controller has in
  -- reserve, reports that amount in `DepositSlashed`, and touches no free balance and no other account.
  pub guilty_burns :
      (did amount : ℕ) (p : AgentProfile) (s : Registry B)
      → lookup did s.agent_profiles ≡ some p
      → cfg.strike_threshold ≤ strikes did s + 1
      → cfg.strike_threshold ≤ u32_max
      → let t : Registry B = slash_reputation_for_guilty_delivery c cfg did amount s in
        let burned = min cfg.deposit_slash_per_strike (c.reserved s.balances p.controller) in
        (c.reserved t.balances p.controller + burned ≡ c.reserved s.balances p.controller)
        × (t.events
            ≡ deposit_slashed did p.controller burned (saturating_add (strikes did s) 1)
              ∷ reputation_slashed did amount (p.reputation_score - amount)
              ∷ s.events)
        × ((who : ℕ) → c.free t.balances who ≡ c.free s.balances who)
        × ((who : ℕ) → who ≢ p.controller → c.reserved t.balances who ≡ c.reserved s.balances who)
  unfolding slash_reputation_for_guilty_delivery slash_reputation add_strike
  guilty_burns did amount p s found reached small =
      let (_, _, paid) = guilty_at c cfg did amount p s found reached small in
      let written = lookup-insert did did (slashed_profile amount p) s.agent_profiles in
      let left =
        laws.slash_reserved-remaining p.controller cfg.deposit_slash_per_strike s.balances in
      let held = λ (who : ℕ).
        laws.reserved-slash_reserved p.controller cfg.deposit_slash_per_strike who s.balances in
      (
        ground (arith, paid, held p.controller),
        ground (arith, written, left),
        λ who.
            rw paid
              (laws.free-slash_reserved p.controller cfg.deposit_slash_per_strike who s.balances),
        λ who ne. ground (arith, paid, held who),
      )

  -- Leaving the registry gives the controller back its registration deposit, or whatever less it has
  -- in reserve; no other account is touched, and the agent is gone from the registry.
  pub deregister_agent_returns :
      (origin : Origin) (did : ℕ) (p : AgentProfile) (s t : Registry B)
      → lookup did s.agent_profiles ≡ some p
      → deregister_agent c cfg origin did s ≡ ok t
      → let returned = min cfg.registration_deposit (c.reserved s.balances p.controller) in
        (c.free t.balances p.controller ≡ c.free s.balances p.controller + returned)
        × (c.reserved t.balances p.controller + returned ≡ c.reserved s.balances p.controller)
        × ((who : ℕ)
            → who ≢ p.controller
            → (c.free t.balances who ≡ c.free s.balances who)
              × (c.reserved t.balances who ≡ c.reserved s.balances who))
        × (lookup did t.agent_profiles ≡ none)
  deregister_agent_returns origin did p s t found e =
      let (q, q_found, _, _, done) = deregister_agent-ok c cfg origin did s t e in
      let same : q ≡ p = ground arith in
      let free_of =
        λ (who : ℕ). laws.free-unreserve q.controller cfg.registration_deposit who s.balances in
      let held =
        λ (who : ℕ). laws.reserved-unreserve q.controller cfg.registration_deposit who s.balances in
      rw (done, ← same)
        (
          ground (arith, free_of q.controller),
          ground (arith, held q.controller),
          λ who ne. (ground (arith, free_of who), ground (arith, held who)),
          ground (arith, lookup-remove did did s.agent_profiles),
        )
