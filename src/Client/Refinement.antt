-- ===== src/Client/Refinement.antt =====
-- The clients of offchain-agent-registry/src/lib.rs and offchain-vector-db/src/lib.rs, against what the
-- runtime does with the extrinsics that they mean.
use arthneura_core.Base.{ℕ, ◌≡◌, List}
use arthneura_core.Currency.{Currency}
use arthneura_core.AgentRegistry.{Crypto}
use arthneura_core.VectorDb.{Hashing}
use arthneura_core.Client.Chain.{Chain, runtime_node}
use arthneura_core.Client.Requests.{
  Request, Fits, extrinsic_of, send, profile, agent_status, star, unstar, deregistration,
  signed_registration, acknowledgement, closing, dispute, finalization, expiry,
}
use arthneura_core.Client.Answer.{answer}
use arthneura_core.Client.AgentAnswers.{
  update_profile-answer, set_agent_status-answer, give_star-answer, remove_star-answer,
  deregister_agent-answer, submit_signed_registration-answer,
}
use arthneura_core.Client.TradeAnswers.{
  acknowledge_commitment-answer, close_commitment-answer, raise_dispute-answer,
  finalize_dispute-answer, expire_commitment-answer,
}

module _ {B : Type 0} (c : Currency B) (crypto : Crypto) (k : Hashing)
    (blake2_256 : List ℕ → ℕ) where
  -- A request whose numbers and byte vectors are within the bounds of the pallets' parameters, sent by its client to a node that runs the runtime, has the
  -- effect of the extrinsic it means: if the pallet accepts that, the chain holds its outcome and the client
  -- reports success, and otherwise the chain is as before and the client reports failure.
  pub send-extrinsic_of :
      (who : ℕ) (x : Request) (ch : Chain B)
      → Fits x
      → send (runtime_node c crypto k) blake2_256 who x ch
        ≡ answer c crypto k (extrinsic_of ch.system who x) ch
  unfolding send extrinsic_of
  send-extrinsic_of who (profile did capabilities metadata label) ch (f0, f1, f2, f3) =
      update_profile-answer c crypto k who did capabilities metadata label ch f0 f1 f2 f3
  send-extrinsic_of who (agent_status did new_status) ch fits =
      set_agent_status-answer c crypto k who did new_status ch fits
  send-extrinsic_of who (star giver_did receiver) ch (f0, f1) =
      give_star-answer c crypto k who giver_did receiver ch f0 f1
  send-extrinsic_of who (unstar giver_did receiver) ch (f0, f1) =
      remove_star-answer c crypto k who giver_did receiver ch f0 f1
  send-extrinsic_of who (deregistration did) ch fits =
      deregister_agent-answer c crypto k who did ch fits
  send-extrinsic_of who
        (signed_registration pubkey signature signed_at_block capabilities metadata label) ch
        (f0, f1, f2, f3, f4, f5) =
      submit_signed_registration-answer c crypto k blake2_256 who pubkey signature signed_at_block
        capabilities metadata label ch f0 f1 f2 f3 f4 f5
  send-extrinsic_of who (acknowledgement commitment_id consumer_did) ch (f0, f1) =
      acknowledge_commitment-answer c crypto k who commitment_id consumer_did ch f0 f1
  send-extrinsic_of who (closing commitment_id consumer_did final_stream_hash chunk_count) ch
        (f0, f1, f2, f3) =
      close_commitment-answer c crypto k who commitment_id consumer_did final_stream_hash
        chunk_count ch f0 f1 f2 f3
  send-extrinsic_of who
        (dispute commitment_id consumer_did disputed_chunk_index received_chunk_hash chunk_count) ch
        (f0, f1, f2, f3, f4) =
      raise_dispute-answer c crypto k who commitment_id consumer_did disputed_chunk_index
        received_chunk_hash chunk_count ch f0 f1 f2 f3 f4
  send-extrinsic_of who (finalization commitment_id) ch fits =
      finalize_dispute-answer c crypto k who commitment_id ch fits
  send-extrinsic_of who (expiry commitment_id) ch fits =
      expire_commitment-answer c crypto k who commitment_id ch fits
