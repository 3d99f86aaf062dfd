-- ===== src/Runtime/Reserves.antt =====
-- One reserve for two purposes: pallets/pallet-agent-registry/src/lib.rs and
-- pallets/pallet-escrow/src/lib.rs both use the unnamed reserve of the same currency, so that the
-- deposit of an agent and the funds of its controller's escrows are not kept apart.
use arthneura_core.Base.{
  ℕ, ◌+◌, ◌-◌, ◌<◌, ◌≤◌, ◌≡◌, refl, true, false, some, ◌∷◌, [], arith, ==_refl,
}
use arthneura_core.Base.Map.{lookup, lookup-insert, get_or, insert, remove}
use arthneura_core.Frame.{signed, ok}
use arthneura_core.Currency.{Currency, IsReservable}
use arthneura_core.Escrow.{Escrow, EscrowRecord, released, is_locked, funds_released}
use arthneura_core.Escrow
use arthneura_core.Escrow.Solvency.{liability}
use arthneura_core.AgentRegistry.{
  AgentProfile, Config, Registry, is_revoked, deregister_agent, agent_deregistered, retain_ne,
}
use arthneura_core.AgentRegistry.Strikes.{
  strikes, guilty_at, guilty_burns, slashed_profile, deregister_agent_returns,
}
use arthneura_core.Runtime.{World, registry_config, provider_guilty_slash, penalize_provider}

module _ {B : Type 0} (c : Currency B) where
  -- The controller of an agent that is not revoked can always take it off the registry.
  deregister_agent-succeeds :
      (cfg : Config) (did : ℕ) (p : AgentProfile) (s : Registry B)
      → lookup did s.agent_profiles ≡ some p
      → is_revoked p.status ≡ false
      → (t : Registry B) × (deregister_agent c cfg (signed p.controller) did s ≡ ok t)
  unfolding deregister_agent
  deregister_agent-succeeds cfg did p s found live = (
    record s {
      balances = (c.unreserve p.controller cfg.registration_deposit s.balances).0;
      controller_agents =
          insert p.controller (retain_ne did (get_or [] p.controller s.controller_agents))
            s.controller_agents;
      agent_profiles = remove did s.agent_profiles;
      active_agent_count = s.active_agent_count - 1;
      events = agent_deregistered did p.controller ∷ s.events;
    },
    ground (arith, ==_refl p.controller),
  )

module _ {B : Type 0} (c : Currency B) (laws : IsReservable c) where
  -- The controller of an agent that is not revoked has in reserve what its locked escrows hold and the full
  -- deposit of the agent, and its escrows hold at least one slash. The provider's penalty that reaches
  -- the threshold of strikes, and so slashes the deposit, leaves the escrows covered. Then the
  -- controller can deregister the agent, and gets the full deposit back: its reserve is short of its
  -- escrows by the amount of the slash.
  pub deregister_agent-drains_escrow :
      (did : ℕ) (p : AgentProfile) (w : World B)
      → lookup did w.agents.agent_profiles ≡ some p
      → is_revoked p.status ≡ false
      → registry_config.strike_threshold ≤ strikes did w.agents + 1
      → c.reserved w.agents.balances p.controller
        ≡ liability p.controller w.escrows + registry_config.registration_deposit
      → registry_config.deposit_slash_per_strike ≤ liability p.controller w.escrows
      → let struck : World B = penalize_provider c did w in
        (t : Registry B) × (liability p.controller struck.escrows
          ≤ c.reserved struck.agents.balances p.controller)
        × (deregister_agent c registry_config (signed p.controller) did struck.agents ≡ ok t)
        × (c.free t.balances p.controller
            ≡ c.free w.agents.balances p.controller + registry_config.registration_deposit)
        × (c.reserved t.balances p.controller + registry_config.deposit_slash_per_strike
            ≡ liability p.controller struck.escrows)
  unfolding penalize_provider
  deregister_agent-drains_escrow did p w found live reached covered held =
      let (burned, _, free_kept, _) =
        guilty_burns c laws registry_config did provider_guilty_slash p w.agents found reached
          (omega arith) in
      let (found', _, _) =
        guilty_at c registry_config did provider_guilty_slash p w.agents found reached
          (omega arith) in
      let q = slashed_profile provider_guilty_slash p in
      let struck : World B = penalize_provider c did w in
      let (t, gone) = deregister_agent-succeeds c registry_config did q struck.agents found' live in
      let (freed, left, _, _) =
        deregister_agent_returns c laws registry_config (signed p.controller) did q struck.agents t
          found' gone in
      let same_free = free_kept p.controller in (t, omega arith, gone, omega arith, omega arith)

  -- Where the currency does not refuse the transfer, a release of a locked escrow succeeds although the payer's
  -- reserve does not cover it: the payee gets only what is there, which is
  -- less than the amount, the record is closed as `Released`, and the event reports the full amount.
  pub release-pays_short :
      (id : ℕ) (r : EscrowRecord) (s : Escrow B) (b : B) (left : ℕ)
      → lookup id s.escrows ≡ some r
      → is_locked r.status ≡ true
      → c.reserved s.balances r.payer < r.amount
      → c.repatriate_reserved r.payer r.payee r.amount s.balances ≡ some (b, left)
      → (t : Escrow B) × (Escrow.release c id s ≡ ok t)
        × (c.free t.balances r.payee ≡ c.free s.balances r.payee + c.reserved s.balances r.payer)
        × (c.free t.balances r.payee < c.free s.balances r.payee + r.amount)
        × (lookup id t.escrows ≡ some (record r { status = released }))
        × (t.events ≡ funds_released id r.payer r.payee r.amount ∷ s.events)
  unfolding Escrow.release
  release-pays_short id r s b left found is short moved =
      let paid =
        laws.free-repatriate_reserved r.payer r.payee r.amount r.payee s.balances b left moved in
      (
        record {
          escrows = insert id (record r { status = released }) s.escrows;
          balances = b;
          events = funds_released id r.payer r.payee r.amount ∷ s.events;
        },
        ground arith,
        ground (arith, paid),
        ground (arith, paid),
        rw (lookup-insert, ==_refl) refl,
        refl,
      )
