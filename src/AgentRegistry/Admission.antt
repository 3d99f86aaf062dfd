-- ===== src/AgentRegistry/Admission.antt =====
-- Who is let in, and what the owner of a profile may do, in
-- pallets/pallet-agent-registry/src/lib.rs: the exact conditions under which a call succeeds.
use arthneura_core.Base.{ℕ, ◌≡◌, false, some, List, [], ◌∷◌, ◌++◌, arith, saturating_add}
use mathlib.Core.Logic.{◌↔◌}
use mathlib.Core.Path.{subst}
use arthneura_core.Base.Map.{lookup, get_or, insert}
use arthneura_core.Frame.{Origin, signed, ok}
use arthneura_core.Currency.{Currency}
use arthneura_core.AgentRegistry.{
  AgentProfile, Registry, Config, System, Crypto, is_revoked, derive_did, agent_registered,
  agent_profile_updated, update_profile, register_agent,
}
use arthneura_core.AgentRegistry.Outcome.{
  update_profile-ok, register_agent-ok, RegistrationAllowed, new_profile,
}

module _ {B : Type 0} where
  -- `update_profile` succeeds exactly when the DID is registered, not revoked, and the call is signed
  -- by its controller; so a suspended profile can be written.
  pub update_profile_iff :
      (origin : Origin) (did capabilities : ℕ) (metadata label : List ℕ) (s : Registry B)
      → ((t : Registry B) × (update_profile origin did capabilities metadata label s ≡ ok t)) ↔ (
          (p : AgentProfile) × (lookup did s.agent_profiles ≡ some p)
          × (origin ≡ signed p.controller)
          × (is_revoked p.status ≡ false))
  unfolding update_profile
  update_profile_iff origin did capabilities metadata label s = (
    λ r.
        let (t, e) = r in
        let (p, found, who, live, _) =
          update_profile-ok origin did capabilities metadata label s t e in
        (p, found, who, live),
    λ r.
        let (p, found, who, live) = r in
        (
          record s {
            agent_profiles =
                insert did
                  (record p { capabilities = capabilities; metadata = metadata; label = label })
                  s.agent_profiles;
            events = agent_profile_updated did ∷ s.events;
          },
          rw (who, found, live) (ground arith),
        ),
  )

module _ {B : Type 0} (c : Currency B) (cfg : Config) (k : Crypto) where
  -- An agent is registered exactly when a signed caller presents a key whose DID is new, has fewer
  -- than 64 agents, signed the challenge for this chain, DID and account at a block of the last 64,
  -- and can reserve the deposit.
  pub register_agent_iff :
      (sys : System) (who : ℕ) (pubkey signature : List ℕ) (signed_at_block capabilities : ℕ)
      (metadata label : List ℕ) (s : Registry B)
      → ((t : Registry B) × (register_agent c cfg k sys
              (signed who)
              pubkey
              signature
              signed_at_block
              capabilities
              metadata
              label
              s
            ≡ ok t))
        ↔ (RegistrationAllowed k sys who pubkey signature signed_at_block s
            × ((b : B) × (c.reserve who cfg.registration_deposit s.balances ≡ some b)))
  unfolding register_agent
  register_agent_iff sys who pubkey signature n capabilities metadata label s = (
    λ r.
        let (t, e) = r in
        let (who', b, same, a, paid, _) =
          register_agent-ok c cfg k sys (signed who) pubkey signature n capabilities metadata label
            s t e in
        let same_who : who' ≡ who = cc in
        (
          subst (λ z. RegistrationAllowed k sys z pubkey signature n s) same_who a,
          (b, rw same_who at paid),
        ),
    λ r.
        let (a, (b, paid)) = r in
        (
          record s {
            agent_profiles =
                insert (derive_did k pubkey)
                  (new_profile (derive_did k pubkey) who capabilities sys.block_number metadata
                    label)
                  s.agent_profiles;
            controller_agents =
                insert who (get_or [] who s.controller_agents ++ derive_did k pubkey ∷ [])
                  s.controller_agents;
            active_agent_count = saturating_add s.active_agent_count 1;
            balances = b;
            events = agent_registered (derive_did k pubkey) who ∷ s.events;
          },
          ground (
            arith, a.fresh, a.room, a.past, a.recent, a.pubkey_parsed, a.signature_parsed, a.proved,
          ),
        ),
  )
