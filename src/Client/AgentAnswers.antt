-- ===== src/Client/AgentAnswers.antt =====
-- The clients of offchain-agent-registry/src/lib.rs on a node that runs the runtime.
use Prim.Native.String.{String}
use arthneura_core.Base.{
  ℕ, ◌≡◌, refl, ap, ◌∙◌, inl, inr, ◌<◌, ◌≤◌, ◌^◌, some, List, [], ◌∷◌, arith, length,
}
use arthneura_core.Frame.{signed, ok, Result-cases}
use arthneura_core.Currency.{Currency}
use arthneura_core.AgentRegistry.{
  Crypto, Registry, RegistryEvent, AgentStatus, derive_did, agent_registered, agent_profile_updated,
  agent_status_changed, star_given, star_removed, agent_deregistered,
}
use arthneura_core.AgentRegistry
use arthneura_core.AgentRegistry.Outcome.{
  update_profile-ok, set_agent_status-ok, give_star-ok, remove_star-ok, register_agent-ok,
  deregister_agent-ok,
}
use arthneura_core.VectorDb.{Hashing}
use arthneura_core.Runtime.{registry_config}
use arthneura_core.Runtime.History.{agent}
use arthneura_core.Client.{
  Tx, Event, CallResult, done, failed, find_event, confirmed, call_and_confirm, from_bytes, u128,
}
use arthneura_core.Client.Arguments.{max_metadata_len, max_label_len, max_pubkey_len, max_sig_len}
use arthneura_core.Client.Dispatch.{
  dispatch, agent_call, agent_call_1, agent_call_2, agent_call_4, agent_call_6,
}
use arthneura_core.Client.Chain.{Chain, attempt, runtime_node, agent_event}
use arthneura_core.Client.Decode.{
  array_of-le_bytes, uint-u128, bounded-from_bytes, status-variant_name,
}
use arthneura_core.Client.Agents.{
  pallet_name, did_of, update_profile, set_agent_status, give_star, remove_star, deregister_agent,
  submit_signed_registration, variant_name,
}
use arthneura_core.Client.Requests.{forget}
use arthneura_core.Client.Answer.{answer, confirmed-call_and_confirm, deposits-agent}

-- The transaction of both clients that register an agent.
abbrev pub registration : List ℕ → List ℕ → ℕ → ℕ → List ℕ → List ℕ → Tx
registration pubkey signature signed_at_block capabilities metadata label = record {
  pallet_name = pallet_name;
  call_name = "register_agent";
  args =
      from_bytes pubkey
      ∷ from_bytes signature
      ∷ u128 signed_at_block
      ∷ u128 capabilities
      ∷ from_bytes metadata
      ∷ from_bytes label
      ∷ [];
}

module _ {B : Type 0} (c : Currency B) (crypto : Crypto) (k : Hashing) where
  pub forget-confirmed {ℓ} :
      {A : Type ℓ} (a : A) (r : Chain B × CallResult Event)
      → forget (confirmed a r) ≡ confirmed tt r
  forget-confirmed a (ch, done e) = refl
  forget-confirmed a (ch, failed x) = refl

  -- A transaction for pallet-agent-registry that is dispatched as `x`, where `x` deposits an event of
  -- the variant that the client looks for.
  pub confirmed-agent :
      (who : ℕ) (tx : Tx) (variant : String) (x : AgentRegistry.Calls.Call) (ch : Chain B)
      → dispatch ch.system who tx ≡ some (agent x)
      → ((a : Registry B)
          → AgentRegistry.Calls.call c registry_config crypto x ch.runtime.world.agents ≡ ok a
          → (e : RegistryEvent) × (a.events ≡ e ∷ ch.runtime.world.agents.events)
            × (find_event tx.pallet_name variant (agent_event e ∷ []) ≡ some (agent_event e)))
      → confirmed tt (call_and_confirm (runtime_node c crypto k) who tx variant ch)
        ≡ answer c crypto k (agent x) ch
  unfolding attempt
  confirmed-agent who tx variant x ch named adds =
      confirmed-call_and_confirm c crypto k who tx variant (agent x) ch named (λ t accepted.
        elim (Result-cases
          (AgentRegistry.Calls.call c registry_config crypto x ch.runtime.world.agents)) [
            | inl (r, refused) ↦ absurd (ground arith)
            | inr (a, updated) ↦
                let (e, gains, first) = adds a updated in
                (
                  agent_event e,
                  (rw (deposits-agent c crypto k x ch.runtime t a e accepted updated gains, first)),
                )
          ])

  pub update_profile-answer :
      (who : ℕ) (did capabilities : ℕ) (metadata label : List ℕ) (ch : Chain B)
      → did < 256 ^ 32
      → capabilities < 2 ^ 64
      → length metadata ≤ max_metadata_len
      → length label ≤ max_label_len
      → update_profile (runtime_node c crypto k) who did capabilities metadata label ch
        ≡ answer c crypto k
            (agent (AgentRegistry.Calls.updates (signed who) did capabilities metadata label))
            ch
  unfolding update_profile find_event AgentRegistry.Calls.call dispatch agent_call agent_call_4
  update_profile-answer who did capabilities metadata label ch fits_did fits_capabilities
        fits_metadata fits_label =
      confirmed-agent who _ "AgentProfileUpdated"
        (AgentRegistry.Calls.updates (signed who) did capabilities metadata label) ch
        (rw (
          array_of-le_bytes did fits_did,
          uint-u128 64 capabilities fits_capabilities,
          bounded-from_bytes max_metadata_len metadata fits_metadata,
          bounded-from_bytes max_label_len label fits_label,
        ))
        (λ t accepted.
          let (profile, found, owner, live, same) =
            update_profile-ok (signed who) did capabilities metadata label ch.runtime.world.agents t
              accepted in
          (agent_profile_updated did, ap (λ r. r.events) same, refl))

  pub set_agent_status-answer :
      (who : ℕ) (did : ℕ) (new_status : AgentStatus) (ch : Chain B)
      → did < 256 ^ 32
      → set_agent_status (runtime_node c crypto k) who did new_status ch
        ≡ answer c crypto k (agent (AgentRegistry.Calls.sets_status (signed who) did new_status)) ch
  unfolding set_agent_status find_event AgentRegistry.Calls.call dispatch agent_call agent_call_2
      variant_name
  set_agent_status-answer who did new_status ch fits_did =
      confirmed-agent who _ "AgentStatusChanged"
        (AgentRegistry.Calls.sets_status (signed who) did new_status) ch
        (rw (array_of-le_bytes did fits_did, status-variant_name new_status))
        (λ t accepted.
          let (profile, found, owner, live, same) =
            set_agent_status-ok (signed who) did new_status ch.runtime.world.agents t accepted in
          (agent_status_changed did new_status, ap (λ r. r.events) same, refl))

  pub give_star-answer :
      (who : ℕ) (giver_did receiver : ℕ) (ch : Chain B)
      → giver_did < 256 ^ 32
      → receiver < 256 ^ 32
      → give_star (runtime_node c crypto k) who giver_did receiver ch
        ≡ answer c crypto k
            (agent
              (AgentRegistry.Calls.gives ch.system.block_number (signed who) giver_did receiver))
            ch
  unfolding give_star find_event AgentRegistry.Calls.call dispatch agent_call agent_call_2
  give_star-answer who giver_did receiver ch fits_giver_did fits_receiver =
      confirmed-agent who _ "StarGiven"
        (AgentRegistry.Calls.gives ch.system.block_number (signed who) giver_did receiver) ch
        (rw (array_of-le_bytes giver_did fits_giver_did, array_of-le_bytes receiver fits_receiver))
        (λ t accepted.
          let (giver, p, by, allowed, same) =
            give_star-ok registry_config ch.system.block_number (signed who) giver_did receiver
              ch.runtime.world.agents t accepted in
          (star_given giver_did receiver, ap (λ r. r.events) same, refl))

  pub remove_star-answer :
      (who : ℕ) (giver_did receiver : ℕ) (ch : Chain B)
      → giver_did < 256 ^ 32
      → receiver < 256 ^ 32
      → remove_star (runtime_node c crypto k) who giver_did receiver ch
        ≡ answer c crypto k
            (agent (AgentRegistry.Calls.takes_back (signed who) giver_did receiver))
            ch
  unfolding remove_star find_event AgentRegistry.Calls.call dispatch agent_call agent_call_2
  remove_star-answer who giver_did receiver ch fits_giver_did fits_receiver =
      confirmed-agent who _ "StarRemoved"
        (AgentRegistry.Calls.takes_back (signed who) giver_did receiver) ch
        (rw (array_of-le_bytes giver_did fits_giver_did, array_of-le_bytes receiver fits_receiver))
        (λ t accepted.
          let (giver, p, by, owned, given, found, same) =
            remove_star-ok (signed who) giver_did receiver ch.runtime.world.agents t accepted in
          (star_removed giver_did receiver, ap (λ r. r.events) same, refl))

  pub deregister_agent-answer :
      (who : ℕ) (did : ℕ) (ch : Chain B)
      → did < 256 ^ 32
      → deregister_agent (runtime_node c crypto k) who did ch
        ≡ answer c crypto k (agent (AgentRegistry.Calls.deregisters (signed who) did)) ch
  unfolding deregister_agent find_event AgentRegistry.Calls.call dispatch agent_call agent_call_1
  deregister_agent-answer who did ch fits_did =
      confirmed-agent who _ "AgentDeregistered" (AgentRegistry.Calls.deregisters (signed who) did)
        ch (rw (array_of-le_bytes did fits_did))
        (λ t accepted.
          let (profile, found, owner, live, same) =
            deregister_agent-ok c registry_config (signed who) did ch.runtime.world.agents t
              accepted in
          (agent_deregistered did profile.controller, ap (λ r. r.events) same, refl))

  pub registration-answer :
      (who : ℕ) (pubkey signature : List ℕ) (signed_at_block capabilities : ℕ)
      (metadata label : List ℕ) (ch : Chain B)
      → length pubkey ≤ max_pubkey_len
      → length signature ≤ max_sig_len
      → signed_at_block < 2 ^ 32
      → capabilities < 2 ^ 64
      → length metadata ≤ max_metadata_len
      → length label ≤ max_label_len
      → confirmed tt (
          call_and_confirm
            (runtime_node c crypto k)
            who
            (registration pubkey signature signed_at_block capabilities metadata label)
            "AgentRegistered"
            ch)
        ≡ answer c crypto k
            (agent (
              AgentRegistry.Calls.registers ch.system
                (signed who)
                pubkey
                signature
                signed_at_block
                capabilities
                metadata
                label))
            ch
  unfolding find_event AgentRegistry.Calls.call dispatch agent_call agent_call_6
  registration-answer who pubkey signature signed_at_block capabilities metadata label ch
        fits_pubkey fits_signature fits_signed_at_block fits_capabilities fits_metadata fits_label =
      confirmed-agent who
        (registration pubkey signature signed_at_block capabilities metadata label)
        "AgentRegistered"
        (AgentRegistry.Calls.registers ch.system (signed who) pubkey signature signed_at_block
          capabilities metadata label)
        ch
        (rw (
          bounded-from_bytes max_pubkey_len pubkey fits_pubkey,
          bounded-from_bytes max_sig_len signature fits_signature,
          uint-u128 32 signed_at_block fits_signed_at_block,
          uint-u128 64 capabilities fits_capabilities,
          bounded-from_bytes max_metadata_len metadata fits_metadata,
          bounded-from_bytes max_label_len label fits_label,
        ))
        (λ t accepted.
          let (controller, b, by, allowed, held, same) =
            register_agent-ok c registry_config crypto ch.system (signed who) pubkey signature
              signed_at_block capabilities metadata label ch.runtime.world.agents t accepted in
          (agent_registered (derive_did crypto pubkey) controller, ap (λ r. r.events) same, refl))

  pub submit_signed_registration-answer :
      (blake2_256 : List ℕ → ℕ) (who : ℕ) (pubkey signature : List ℕ)
      (signed_at_block capabilities : ℕ) (metadata label : List ℕ) (ch : Chain B)
      → length pubkey ≤ max_pubkey_len
      → length signature ≤ max_sig_len
      → signed_at_block < 2 ^ 32
      → capabilities < 2 ^ 64
      → length metadata ≤ max_metadata_len
      → length label ≤ max_label_len
      → forget (
          submit_signed_registration
            (runtime_node c crypto k)
            blake2_256
            who
            pubkey
            signature
            signed_at_block
            capabilities
            metadata
            label
            ch)
        ≡ answer c crypto k
            (agent (
              AgentRegistry.Calls.registers ch.system
                (signed who)
                pubkey
                signature
                signed_at_block
                capabilities
                metadata
                label))
            ch
  unfolding submit_signed_registration
  submit_signed_registration-answer blake2_256 who pubkey signature signed_at_block capabilities
        metadata label ch fits_pubkey fits_signature fits_signed_at_block fits_capabilities
        fits_metadata fits_label =
      forget-confirmed (did_of blake2_256 pubkey) (
        call_and_confirm (runtime_node c crypto k) who
          (registration pubkey signature signed_at_block capabilities metadata label)
          "AgentRegistered" ch)
      ∙ registration-answer who pubkey signature signed_at_block capabilities metadata label ch
          fits_pubkey fits_signature fits_signed_at_block fits_capabilities fits_metadata fits_label
