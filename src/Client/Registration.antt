-- ===== src/Client/Registration.antt =====
-- The client `register_agent` of offchain-agent-registry/src/lib.rs on a node that runs the runtime: the
-- challenge that it signs is the one that pallet-agent-registry verifies.
use arthneura_core.Base.{ℕ, ◌-◌, ◌≡◌, ◌∙◌, ◌<◌, ◌≤◌, ◌^◌, true, none, some, List, [], arith, length}
use arthneura_core.Base.Map.{lookup, get_or, lookup-insert}
use arthneura_core.Frame.{signed}
use arthneura_core.Currency.{Currency}
use arthneura_core.AgentRegistry.{
  Crypto, Registry, System, derive_did, challenge, max_agents, replay_window,
}
use arthneura_core.AgentRegistry
use arthneura_core.AgentRegistry.Outcome.{RegistrationAllowed, new_profile, register_agent-ok}
use arthneura_core.AgentRegistry.Admission.{register_agent_iff}
use arthneura_core.VectorDb.{Hashing}
use arthneura_core.Runtime.{registry_config}
use arthneura_core.Client.{Event, CallResult, done, failed, confirmed, call_and_confirm}
use arthneura_core.Client.Arguments.{max_pubkey_len, max_sig_len, max_label_len, max_metadata_len}
use arthneura_core.Client.Agents.{Signing, did_of, encode_challenge, register_agent}
use arthneura_core.Client.Chain.{Chain, attempt, runtime_node}
use arthneura_core.Client.Answer.{answer}
use arthneura_core.Client.AgentAnswers.{registration, registration-answer}

-- The crates that the client and the pallet use agree: an encoded key and an encoded signature fit
-- the bounds of the pallet, are parsed, and a signature verifies under the key that made it.
pub record Agrees (crypto : Crypto) (keys : Signing) : Type 0 where
  pub key_fits : (seed : ℕ) → length (keys.verifying_key seed) ≤ max_pubkey_len
  pub key_parses : (seed : ℕ) → crypto.is_pubkey (keys.verifying_key seed) ≡ true
  pub signature_fits : (seed : ℕ) (message : List ℕ) → length (keys.sign seed message) ≤ max_sig_len
  pub signature_parses :
      (seed : ℕ) (message : List ℕ) → crypto.is_signature (keys.sign seed message) ≡ true
  pub verifies :
      (seed : ℕ) (message : List ℕ)
      → crypto.verify (keys.verifying_key seed) message (keys.sign seed message) ≡ true

module _ {B : Type 0} (c : Currency B) (crypto : Crypto) (k : Hashing) (keys : Signing) where
  -- The challenge that the client signs at a chain.
  abbrev pub signed_challenge : ℕ → ℕ → System → List ℕ
  signed_challenge seed who sys =
      encode_challenge (sys.block_hash 0) (did_of crypto.blake2_256 (keys.verifying_key seed)) who
        (sys.block_number - 1) (sys.block_hash (sys.block_number - 1))

  signed_challenge-allowed :
      (laws : Agrees crypto keys) (seed who : ℕ) (sys : System) (s : Registry B)
      → lookup (derive_did crypto (keys.verifying_key seed)) s.agent_profiles ≡ none
      → length (get_or [] who s.controller_agents) < max_agents
      → RegistrationAllowed crypto sys who
          (keys.verifying_key seed)
          (keys.sign seed (signed_challenge seed who sys))
          (sys.block_number - 1)
          s
  unfolding did_of derive_did challenge encode_challenge
  signed_challenge-allowed laws seed who sys s fresh room = record {
    fresh = fresh;
    room = room;
    past = omega arith;
    recent = omega arith;
    pubkey_parsed = laws.key_parses seed;
    signature_parsed = laws.signature_parses seed (signed_challenge seed who sys);
    proved = laws.verifies seed (signed_challenge seed who sys);
  }

  confirmed-done {ℓ} :
      {S : Type 0} {A : Type ℓ} (a : A) (r : S × CallResult Event) (s : S)
      → confirmed {A = Unit {0}} tt r ≡ (s, done tt)
      → confirmed a r ≡ (s, done a)
  confirmed-done a (s', done e) s same = cc
  confirmed-done a (s', failed x) s same = absurd (cc)

  -- A new key of an account with fewer than 64 agents that can reserve the deposit is registered: the
  -- client reports the DID that the pallet derives, with the key, and the profile of that DID is the
  -- account's.
  pub register_agent-done :
      (laws : Agrees crypto keys) (seed who capabilities : ℕ) (metadata label : List ℕ)
      (ch : Chain B) (b : B)
      → ch.system.block_number < 2 ^ 32
      → capabilities < 2 ^ 64
      → length metadata ≤ max_metadata_len
      → length label ≤ max_label_len
      → lookup (derive_did crypto (keys.verifying_key seed)) ch.runtime.world.agents.agent_profiles
        ≡ none
      → length (get_or [] who ch.runtime.world.agents.controller_agents) < max_agents
      → c.reserve who registry_config.registration_deposit ch.runtime.world.agents.balances ≡ some b
      → (t : Registry B) × (register_agent
            (runtime_node c crypto k)
            crypto.blake2_256
            keys
            seed
            who
            capabilities
            metadata
            label
            ch
          ≡ (
            record ch {
              runtime = record (ch.runtime) { world = record (ch.runtime.world) { agents = t } };
            },
            done (record {
              did = derive_did crypto (keys.verifying_key seed);
              signing_key_bytes = keys.to_bytes seed;
            }),
          ))
        × (lookup (derive_did crypto (keys.verifying_key seed)) t.agent_profiles
            ≡ some (
                new_profile
                  (derive_did crypto (keys.verifying_key seed))
                  who
                  capabilities
                  ch.system.block_number
                  metadata
                  label))
        × (t.balances ≡ b)
  unfolding register_agent did_of derive_did challenge encode_challenge answer attempt
      AgentRegistry.Calls.call
  register_agent-done laws seed who capabilities metadata label ch b early fits_capabilities
        fits_metadata fits_label fresh room covered =
      let message = signed_challenge seed who ch.system in
      let pubkey = keys.verifying_key seed in
      let signature = keys.sign seed message in
      let agents = ch.runtime.world.agents in
      let (t, accepted) =
        (register_agent_iff c registry_config crypto ch.system who pubkey signature
            (ch.system.block_number - 1) capabilities metadata label agents).1
          (signed_challenge-allowed laws seed who ch.system agents fresh room, (b, covered)) in
      let (controller, b', by, allowed, held, same) =
        register_agent-ok c registry_config crypto ch.system (signed who) pubkey signature
          (ch.system.block_number - 1) capabilities metadata label agents t accepted in
      let same_who : controller ≡ who = cc in
      (
        t,
        confirmed-done
            (record { did = derive_did crypto pubkey; signing_key_bytes = keys.to_bytes seed })
            (call_and_confirm (runtime_node c crypto k) who
              (registration pubkey signature (ch.system.block_number - 1) capabilities metadata
                label)
              "AgentRegistered" ch)
            _
            (registration-answer c crypto k who pubkey signature (ch.system.block_number - 1)
                capabilities metadata label ch (laws.key_fits seed)
                (laws.signature_fits seed message) (omega arith) fits_capabilities fits_metadata
                fits_label
              ∙ ground (arith, accepted)),
        grind (arith, lookup-insert),
        cc,
      )
