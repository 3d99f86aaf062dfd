-- ===== src/AgentRegistry/Outcome.antt =====
-- What a successful call of pallets/pallet-agent-registry/src/lib.rs has checked and what it
-- leaves behind, call by call.
use arthneura_core.Base.{
  ℕ, ◌-◌, ◌≤◌, ◌<◌, ◌≡◌, refl, ◌≢◌, inl, inr, true, false, some, none, List, [], ◌∷◌, ◌++◌, arith,
  if◌then◌else◌, length, saturating_add, Option-cases,
}
use arthneura_core.Base.Map.{lookup, get_or, insert, remove, get2, insert2}
use arthneura_core.Frame.{Origin, signed, root, unsigned, ok}
use arthneura_core.Currency.{Currency}
use arthneura_core.AgentRegistry.{
  AgentProfile, AgentStatus, Registry, Config, System, Crypto, active, is_revoked, ml_dsa65,
  max_agents, replay_window, agent_registered, agent_profile_updated, agent_status_changed,
  star_given, star_removed, agent_deregistered, contains, retain_ne, derive_did, challenge,
  update_profile, set_agent_status, give_star, remove_star, register_agent, deregister_agent,
}

module _ {B : Type 0} where
  pub update_profile-ok :
      (origin : Origin) (did capabilities : ℕ) (metadata label : List ℕ) (s t : Registry B)
      → update_profile origin did capabilities metadata label s ≡ ok t
      → (profile : AgentProfile) × (lookup did s.agent_profiles ≡ some profile)
        × (origin ≡ signed profile.controller)
        × (is_revoked profile.status ≡ false)
        × (t ≡ record s {
          agent_profiles =
              insert did
                (record profile { capabilities = capabilities; metadata = metadata; label = label })
                s.agent_profiles;
          events = agent_profile_updated did ∷ s.events;
        })
  unfolding update_profile
  update_profile-ok origin did capabilities metadata label s t e =
      elim (Option-cases (lookup did s.agent_profiles)) [
        | inl missing ↦ absurd (ground arith)
        | inr (profile, found) ↦ (profile, found, ground arith, ground arith, ground arith)
      ]

  pub set_agent_status-ok :
      (origin : Origin) (did : ℕ) (new_status : AgentStatus) (s t : Registry B)
      → set_agent_status origin did new_status s ≡ ok t
      → (profile : AgentProfile) × (lookup did s.agent_profiles ≡ some profile)
        × (origin ≡ signed profile.controller)
        × (is_revoked profile.status ≡ false)
        × (t ≡ record s {
          agent_profiles = insert did (record profile { status = new_status }) s.agent_profiles;
          active_agent_count =
              if is_revoked new_status then s.active_agent_count - 1 else s.active_agent_count;
          events = agent_status_changed did new_status ∷ s.events;
        })
  unfolding set_agent_status
  set_agent_status-ok origin did new_status s t e =
      elim (Option-cases (lookup did s.agent_profiles)) [
        | inl missing ↦ absurd (ground arith)
        | inr (profile, found) ↦ (profile, found, ground arith, ground arith, ground arith)
      ]

  -- What `give_star` has checked.
  pub record StarAllowed (cfg : Config) (now giver giver_did receiver : ℕ) (p : AgentProfile)
      (s : Registry B) : Type 0 where
    pub owned : contains giver_did (get_or [] giver s.controller_agents) ≡ true
    pub other_agent : giver_did ≢ receiver
    pub found : lookup receiver s.agent_profiles ≡ some p
    pub live : is_revoked p.status ≡ false
    pub other_controller : p.controller ≢ giver
    pub cooled :
        0 < get2 0 giver_did receiver s.star_givers
        → saturating_add (get2 0 giver_did receiver s.star_givers) cfg.star_cooldown ≤ now

  pub give_star-ok :
      (cfg : Config) (now : ℕ) (origin : Origin) (giver_did receiver : ℕ) (s t : Registry B)
      → give_star cfg now origin giver_did receiver s ≡ ok t
      → (giver : ℕ) × (p : AgentProfile) × (origin ≡ signed giver)
        × StarAllowed cfg now giver giver_did receiver p s
        × (t ≡ record s {
          agent_profiles =
              insert receiver
                (record p { reputation_score = saturating_add p.reputation_score 1 })
                s.agent_profiles;
          star_givers = insert2 giver_did receiver now s.star_givers;
          events = star_given giver_did receiver ∷ s.events;
        })
  unfolding give_star
  give_star-ok cfg now root giver_did receiver s t e = absurd (cc)
  give_star-ok cfg now unsigned giver_did receiver s t e = absurd (cc)
  give_star-ok cfg now (signed giver) giver_did receiver s t e =
      elim (Option-cases (lookup receiver s.agent_profiles)) [
        | inl missing ↦ absurd (ground arith)
        | inr (p, found) ↦ (giver, p, refl, ground arith, ground arith)
      ]

  pub remove_star-ok :
      (origin : Origin) (giver_did receiver : ℕ) (s t : Registry B)
      → remove_star origin giver_did receiver s ≡ ok t
      → (giver : ℕ) × (p : AgentProfile) × (origin ≡ signed giver)
        × (contains giver_did (get_or [] giver s.controller_agents) ≡ true)
        × (0 < get2 0 giver_did receiver s.star_givers)
        × (lookup receiver s.agent_profiles ≡ some p)
        × (t ≡ record s {
          agent_profiles =
              insert receiver
                (record p { reputation_score = p.reputation_score - 1 })
                s.agent_profiles;
          star_givers = insert2 giver_did receiver 0 s.star_givers;
          events = star_removed giver_did receiver ∷ s.events;
        })
  unfolding remove_star
  remove_star-ok root giver_did receiver s t e = absurd (cc)
  remove_star-ok unsigned giver_did receiver s t e = absurd (cc)
  remove_star-ok (signed giver) giver_did receiver s t e =
      elim (Option-cases (lookup receiver s.agent_profiles)) [
        | inl missing ↦ absurd (ground arith)
        | inr (p, found) ↦ (giver, p, refl, ground arith, ground arith, found, ground arith)
      ]

-- The profile that a registration stores.
abbrev pub new_profile : ℕ → ℕ → ℕ → ℕ → List ℕ → List ℕ → AgentProfile
new_profile did controller capabilities registered_at metadata label = record {
  did = did;
  controller = controller;
  capabilities = capabilities;
  reputation_score = 0;
  status = active;
  registered_at = registered_at;
  is_verified = true;
  quantum_scheme = ml_dsa65;
  metadata = metadata;
  label = label;
}

module _ {B : Type 0} where
  -- What `register_agent` has checked.
  pub record RegistrationAllowed (k : Crypto) (sys : System) (controller : ℕ)
      (pubkey signature : List ℕ) (signed_at_block : ℕ) (s : Registry B) : Type 0 where
    pub fresh : lookup (derive_did k pubkey) s.agent_profiles ≡ none
    pub room : length (get_or [] controller s.controller_agents) < max_agents
    pub past : signed_at_block ≤ sys.block_number
    pub recent : sys.block_number - signed_at_block ≤ replay_window
    pub pubkey_parsed : k.is_pubkey pubkey ≡ true
    pub signature_parsed : k.is_signature signature ≡ true
    pub proved :
        k.verify pubkey
          (challenge
            (sys.block_hash 0)
            (derive_did k pubkey)
            controller
            signed_at_block
            (sys.block_hash signed_at_block))
          signature
        ≡ true

module _ {B : Type 0} (c : Currency B) (cfg : Config) where
  pub register_agent-ok :
      (k : Crypto) (sys : System) (origin : Origin) (pubkey signature : List ℕ)
      (signed_at_block capabilities : ℕ) (metadata label : List ℕ) (s t : Registry B)
      → register_agent c cfg k sys origin pubkey signature signed_at_block capabilities metadata
          label s
        ≡ ok t
      → (controller : ℕ) × (b : B) × (origin ≡ signed controller)
        × RegistrationAllowed k sys controller pubkey signature signed_at_block s
        × (c.reserve controller cfg.registration_deposit s.balances ≡ some b)
        × (t ≡ record s {
          agent_profiles =
              insert
                (derive_did k pubkey)
                (new_profile
                  (derive_did k pubkey)
                  controller
                  capabilities
                  sys.block_number
                  metadata
                  label)
                s.agent_profiles;
          controller_agents =
              insert controller
                (get_or [] controller s.controller_agents ++ derive_did k pubkey ∷ [])
                s.controller_agents;
          active_agent_count = saturating_add s.active_agent_count 1;
          balances = b;
          events = agent_registered (derive_did k pubkey) controller ∷ s.events;
        })
  unfolding register_agent
  register_agent-ok k sys root pubkey signature n capabilities metadata label s t e = absurd (cc)
  register_agent-ok k sys unsigned pubkey signature n capabilities metadata label s t e =
      absurd (cc)
  register_agent-ok k sys (signed controller) pubkey signature n capabilities metadata label s t e =
      elim (Option-cases (c.reserve controller cfg.registration_deposit s.balances)) [
        | inl short ↦ absurd (ground arith)
        | inr (b, covered) ↦ (controller, b, refl, ground arith, covered, ground arith)
      ]

  pub deregister_agent-ok :
      (origin : Origin) (did : ℕ) (s t : Registry B)
      → deregister_agent c cfg origin did s ≡ ok t
      → (profile : AgentProfile) × (lookup did s.agent_profiles ≡ some profile)
        × (origin ≡ signed profile.controller)
        × (is_revoked profile.status ≡ false)
        × (t ≡ record s {
          balances = (c.unreserve profile.controller cfg.registration_deposit s.balances).0;
          controller_agents =
              insert profile.controller
                (retain_ne did (get_or [] profile.controller s.controller_agents))
                s.controller_agents;
          agent_profiles = remove did s.agent_profiles;
          active_agent_count = s.active_agent_count - 1;
          events = agent_deregistered did profile.controller ∷ s.events;
        })
  unfolding deregister_agent
  deregister_agent-ok origin did s t e = elim (Option-cases (lookup did s.agent_profiles)) [
    | inl missing ↦ absurd (ground arith)
    | inr (profile, found) ↦ (profile, found, ground arith, ground arith, ground arith)
  ]
