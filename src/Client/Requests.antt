-- ===== src/Client/Requests.antt =====
-- The calls of offchain-agent-registry/src/lib.rs and offchain-vector-db/src/lib.rs as data: what each
-- client is asked to submit, and the extrinsic of the runtime that it means. The clients
-- `register_agent` and `register_commitment`, which compute what they submit, are not among them.
use arthneura_core.Base.{ℕ, ◌^◌, ◌<◌, ◌≤◌, List, length}
use arthneura_core.Frame.{signed}
use arthneura_core.AgentRegistry.{AgentStatus, System}
use arthneura_core.AgentRegistry
use arthneura_core.VectorDb
use arthneura_core.Runtime.History.{Extrinsic, trade, agent}
use arthneura_core.Client.{Node, CallResult, done, failed}
use arthneura_core.Client.Arguments.{max_pubkey_len, max_sig_len, max_label_len, max_metadata_len}
use arthneura_core.Client.Agents
use arthneura_core.Client.Commitments

pub data Request : Type 0 where
  profile : ℕ → ℕ → List ℕ → List ℕ → Request
  agent_status : ℕ → AgentStatus → Request
  star : ℕ → ℕ → Request
  unstar : ℕ → ℕ → Request
  deregistration : ℕ → Request
  signed_registration : List ℕ → List ℕ → ℕ → ℕ → List ℕ → List ℕ → Request
  acknowledgement : ℕ → ℕ → Request
  closing : ℕ → ℕ → ℕ → ℕ → Request
  dispute : ℕ → ℕ → ℕ → ℕ → ℕ → Request
  finalization : ℕ → Request
  expiry : ℕ → Request

-- The arguments are within the bounds of the pallets' parameters. The clients take the byte vectors
-- unbounded.
abbrev pub Fits : Request → Type 0
Fits (profile did capabilities metadata label) =
    (did < 256 ^ 32)
    × (capabilities < 2 ^ 64)
    × (length metadata ≤ max_metadata_len)
    × (length label ≤ max_label_len)
Fits (agent_status did new_status) = did < 256 ^ 32
Fits (star giver_did receiver) = (giver_did < 256 ^ 32) × (receiver < 256 ^ 32)
Fits (unstar giver_did receiver) = (giver_did < 256 ^ 32) × (receiver < 256 ^ 32)
Fits (deregistration did) = did < 256 ^ 32
Fits (signed_registration pubkey signature signed_at_block capabilities metadata label) =
    (length pubkey ≤ max_pubkey_len)
    × (length signature ≤ max_sig_len)
    × (signed_at_block < 2 ^ 32)
    × (capabilities < 2 ^ 64)
    × (length metadata ≤ max_metadata_len)
    × (length label ≤ max_label_len)
Fits (acknowledgement commitment_id consumer_did) =
    (commitment_id < 256 ^ 32) × (consumer_did < 256 ^ 32)
Fits (closing commitment_id consumer_did final_stream_hash chunk_count) =
    (commitment_id < 256 ^ 32)
    × (consumer_did < 256 ^ 32)
    × (final_stream_hash < 256 ^ 32)
    × (chunk_count < 2 ^ 64)
Fits (dispute commitment_id consumer_did disputed_chunk_index received_chunk_hash chunk_count) =
    (commitment_id < 256 ^ 32)
    × (consumer_did < 256 ^ 32)
    × (disputed_chunk_index < 2 ^ 64)
    × (received_chunk_hash < 256 ^ 32)
    × (chunk_count < 2 ^ 64)
Fits (finalization commitment_id) = commitment_id < 256 ^ 32
Fits (expiry commitment_id) = commitment_id < 256 ^ 32

-- The extrinsic that a request means.
unfoldable pub extrinsic_of : System → ℕ → Request → Extrinsic
extrinsic_of sys who (profile did capabilities metadata label) =
    agent (AgentRegistry.Calls.updates (signed who) did capabilities metadata label)
extrinsic_of sys who (agent_status did new_status) =
    agent (AgentRegistry.Calls.sets_status (signed who) did new_status)
extrinsic_of sys who (star giver_did receiver) =
    agent (AgentRegistry.Calls.gives sys.block_number (signed who) giver_did receiver)
extrinsic_of sys who (unstar giver_did receiver) =
    agent (AgentRegistry.Calls.takes_back (signed who) giver_did receiver)
extrinsic_of sys who (deregistration did) = agent (AgentRegistry.Calls.deregisters (signed who) did)
extrinsic_of sys who
      (signed_registration pubkey signature signed_at_block capabilities metadata label) =
    agent (
      AgentRegistry.Calls.registers sys (signed who) pubkey signature signed_at_block capabilities
        metadata label)
extrinsic_of sys who (acknowledgement commitment_id consumer_did) =
    trade (VectorDb.Calls.acknowledges sys.block_number (signed who) commitment_id consumer_did)
extrinsic_of sys who (closing commitment_id consumer_did final_stream_hash chunk_count) = trade (
    VectorDb.Calls.closes sys.block_number (signed who) commitment_id consumer_did final_stream_hash
      chunk_count)
extrinsic_of sys who
      (dispute commitment_id consumer_did disputed_chunk_index received_chunk_hash chunk_count) =
    trade (
      VectorDb.Calls.raises sys.block_number (signed who) commitment_id consumer_did
        disputed_chunk_index received_chunk_hash chunk_count)
extrinsic_of sys who (finalization commitment_id) =
    trade (VectorDb.Calls.finalizes sys.block_number (signed who) commitment_id)
extrinsic_of sys who (expiry commitment_id) =
    trade (VectorDb.Calls.expires sys.block_number (signed who) commitment_id)

-- The DID that `submit_signed_registration` returns is computed from the key.
abbrev pub forget {ℓ} : {S : Type 0} {A : Type ℓ} → S × CallResult A → S × CallResult (Unit {0})
forget (s, done a) = (s, done tt)
forget (s, failed x) = (s, failed x)

module _ {S : Type 0} (node : Node S) (blake2_256 : List ℕ → ℕ) where
  -- The client that a request is for.
  unfoldable pub send : ℕ → Request → S → S × CallResult (Unit {0})
  send signer (profile did capabilities metadata label) s =
      Agents.update_profile node signer did capabilities metadata label s
  send signer (agent_status did new_status) s = Agents.set_agent_status node signer did new_status s
  send signer (star giver_did receiver) s = Agents.give_star node signer giver_did receiver s
  send signer (unstar giver_did receiver) s = Agents.remove_star node signer giver_did receiver s
  send signer (deregistration did) s = Agents.deregister_agent node signer did s
  send signer (signed_registration pubkey signature signed_at_block capabilities metadata label) s =
      forget (
        Agents.submit_signed_registration node blake2_256 signer pubkey signature signed_at_block
          capabilities metadata label s)
  send signer (acknowledgement commitment_id consumer_did) s =
      Commitments.acknowledge_commitment node signer commitment_id consumer_did s
  send signer (closing commitment_id consumer_did final_stream_hash chunk_count) s =
      Commitments.close_commitment node signer commitment_id consumer_did final_stream_hash
        chunk_count s
  send signer
        (dispute commitment_id consumer_did disputed_chunk_index received_chunk_hash chunk_count)
        s =
      Commitments.raise_dispute node signer commitment_id consumer_did disputed_chunk_index
        received_chunk_hash chunk_count s
  send signer (finalization commitment_id) s =
      Commitments.finalize_dispute node signer commitment_id s
  send signer (expiry commitment_id) s = Commitments.expire_commitment node signer commitment_id s
