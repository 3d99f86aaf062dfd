-- ===== src/Client/TradeAnswers.antt =====
-- The clients of offchain-vector-db/src/lib.rs on a node that runs the runtime.
use Prim.Native.String.{String}
use arthneura_core.Base.{ℕ, ◌≡◌, refl, ap, ◌<◌, ◌^◌, some, [], ◌∷◌}
use arthneura_core.Frame.{signed, ok}
use arthneura_core.Currency.{Currency}
use arthneura_core.AgentRegistry.{Crypto}
use arthneura_core.VectorDb.{
  VectorDb, Hashing, VectorDbEvent, commitment_acknowledged, commitment_settled, dispute_raised,
  dispute_finalized, commitment_expired,
}
use arthneura_core.VectorDb
use arthneura_core.VectorDb.Outcome.{acknowledge_commitment-ok, close_commitment-ok}
use arthneura_core.VectorDb.DisputeOutcome.{
  raise_dispute-ok, finalize_dispute-ok, expire_commitment-ok,
}
use arthneura_core.Runtime.{World, vector_db_config}
use arthneura_core.Runtime.History.{trade}
use arthneura_core.Client.{Tx, find_event, confirmed, call_and_confirm}
use arthneura_core.Client.Dispatch.{
  dispatch, trade_call, trade_call_1, trade_call_2, trade_call_4, trade_call_5,
}
use arthneura_core.Client.Chain.{Chain, attempt, runtime_node, trade_event}
use arthneura_core.Client.Decode.{array_of-le_bytes, uint-u128}
use arthneura_core.Client.Commitments.{
  acknowledge_commitment, close_commitment, raise_dispute, finalize_dispute, expire_commitment,
}
use arthneura_core.Client.Answer.{answer, confirmed-call_and_confirm, deposits-trade}

module _ {B : Type 0} (c : Currency B) (crypto : Crypto) (k : Hashing) where
  -- A transaction for pallet-vector-db that is dispatched as `x`, where `x` deposits an event of the
  -- variant that the client looks for.
  pub confirmed-trade :
      (who : ℕ) (tx : Tx) (variant : String) (x : VectorDb.Calls.Call) (ch : Chain B)
      → dispatch ch.system who tx ≡ some (trade x)
      → ((t : VectorDb (World B))
          → VectorDb.Calls.call (vector_db_config c) k x ch.runtime ≡ ok t
          → (e : VectorDbEvent) × (t.events ≡ e ∷ ch.runtime.events)
            × (find_event tx.pallet_name variant (trade_event e ∷ []) ≡ some (trade_event e)))
      → confirmed tt (call_and_confirm (runtime_node c crypto k) who tx variant ch)
        ≡ answer c crypto k (trade x) ch
  unfolding attempt
  confirmed-trade who tx variant x ch named adds =
      confirmed-call_and_confirm c crypto k who tx variant (trade x) ch named (λ t accepted.
        let (e, gains, first) = adds t accepted in
        (trade_event e, (rw (deposits-trade c crypto k x ch.runtime t e gains, first))))

  pub acknowledge_commitment-answer :
      (who : ℕ) (commitment_id consumer_did : ℕ) (ch : Chain B)
      → commitment_id < 256 ^ 32
      → consumer_did < 256 ^ 32
      → acknowledge_commitment (runtime_node c crypto k) who commitment_id consumer_did ch
        ≡ answer c crypto k
            (trade (
              VectorDb.Calls.acknowledges ch.system.block_number
                (signed who)
                commitment_id
                consumer_did))
            ch
  unfolding acknowledge_commitment find_event VectorDb.Calls.call dispatch trade_call trade_call_2
      attempt
  acknowledge_commitment-answer who commitment_id consumer_did ch fits_commitment_id
        fits_consumer_did =
      confirmed-trade who _ "CommitmentAcknowledged"
        (VectorDb.Calls.acknowledges ch.system.block_number (signed who) commitment_id consumer_did)
        ch
        (rw (
          array_of-le_bytes commitment_id fits_commitment_id,
          array_of-le_bytes consumer_did fits_consumer_did,
        ))
        (λ t accepted.
          let (by, m, payee, w, is_by, found, pending, early, named, acts, owner, held, same) =
            acknowledge_commitment-ok (vector_db_config c) ch.system.block_number (signed who)
              commitment_id consumer_did ch.runtime t accepted in
          (
            commitment_acknowledged commitment_id ch.system.block_number,
            ap (λ r. r.events) same,
            refl,
          ))

  pub close_commitment-answer :
      (who : ℕ) (commitment_id consumer_did final_stream_hash chunk_count : ℕ) (ch : Chain B)
      → commitment_id < 256 ^ 32
      → consumer_did < 256 ^ 32
      → final_stream_hash < 256 ^ 32
      → chunk_count < 2 ^ 64
      → close_commitment
          (runtime_node c crypto k)
          who
          commitment_id
          consumer_did
          final_stream_hash
          chunk_count
          ch
        ≡ answer c crypto k
            (trade (
              VectorDb.Calls.closes ch.system.block_number
                (signed who)
                commitment_id
                consumer_did
                final_stream_hash
                chunk_count))
            ch
  unfolding close_commitment find_event VectorDb.Calls.call dispatch trade_call trade_call_4 attempt
  close_commitment-answer who commitment_id consumer_did final_stream_hash chunk_count ch
        fits_commitment_id fits_consumer_did fits_final_stream_hash fits_chunk_count =
      confirmed-trade who _ "CommitmentSettled"
        (VectorDb.Calls.closes ch.system.block_number (signed who) commitment_id consumer_did
          final_stream_hash chunk_count)
        ch
        (rw (
          array_of-le_bytes commitment_id fits_commitment_id,
          array_of-le_bytes consumer_did fits_consumer_did,
          array_of-le_bytes final_stream_hash fits_final_stream_hash,
          uint-u128 64 chunk_count fits_chunk_count,
        ))
        (λ t accepted.
          let (by, m, w, is_by, found, live, early, named, acts, root, paid, same) =
            close_commitment-ok (vector_db_config c) ch.system.block_number (signed who)
              commitment_id consumer_did final_stream_hash chunk_count ch.runtime t accepted in
          (
            commitment_settled commitment_id final_stream_hash chunk_count,
            ap (λ r. r.events) same,
            refl,
          ))

  pub raise_dispute-answer :
      (who : ℕ)
      (commitment_id consumer_did disputed_chunk_index received_chunk_hash chunk_count : ℕ)
      (ch : Chain B)
      → commitment_id < 256 ^ 32
      → consumer_did < 256 ^ 32
      → disputed_chunk_index < 2 ^ 64
      → received_chunk_hash < 256 ^ 32
      → chunk_count < 2 ^ 64
      → raise_dispute
          (runtime_node c crypto k)
          who
          commitment_id
          consumer_did
          disputed_chunk_index
          received_chunk_hash
          chunk_count
          ch
        ≡ answer c crypto k
            (trade (
              VectorDb.Calls.raises ch.system.block_number
                (signed who)
                commitment_id
                consumer_did
                disputed_chunk_index
                received_chunk_hash
                chunk_count))
            ch
  unfolding raise_dispute find_event VectorDb.Calls.call dispatch trade_call trade_call_5 attempt
  raise_dispute-answer who commitment_id consumer_did disputed_chunk_index received_chunk_hash
        chunk_count ch fits_commitment_id fits_consumer_did fits_disputed_chunk_index
        fits_received_chunk_hash fits_chunk_count =
      confirmed-trade who _ "DisputeRaised"
        (VectorDb.Calls.raises ch.system.block_number (signed who) commitment_id consumer_did
          disputed_chunk_index received_chunk_hash chunk_count)
        ch
        (rw (
          array_of-le_bytes commitment_id fits_commitment_id,
          array_of-le_bytes consumer_did fits_consumer_did,
          uint-u128 64 disputed_chunk_index fits_disputed_chunk_index,
          array_of-le_bytes received_chunk_hash fits_received_chunk_hash,
          uint-u128 64 chunk_count fits_chunk_count,
        ))
        (λ t accepted.
          let (by, m, is_by, found, live, early, named, acts, new, inside, same) =
            raise_dispute-ok (vector_db_config c) ch.system.block_number (signed who) commitment_id
              consumer_did disputed_chunk_index received_chunk_hash chunk_count ch.runtime t
              accepted in
          (_, ap (λ r. r.events) same, refl))

  pub finalize_dispute-answer :
      (who : ℕ) (commitment_id : ℕ) (ch : Chain B)
      → commitment_id < 256 ^ 32
      → finalize_dispute (runtime_node c crypto k) who commitment_id ch
        ≡ answer c crypto k
            (trade (VectorDb.Calls.finalizes ch.system.block_number (signed who) commitment_id))
            ch
  unfolding finalize_dispute find_event VectorDb.Calls.call dispatch trade_call trade_call_1 attempt
  finalize_dispute-answer who commitment_id ch fits_commitment_id =
      confirmed-trade who _ "DisputeFinalized"
        (VectorDb.Calls.finalizes ch.system.block_number (signed who) commitment_id) ch
        (rw (array_of-le_bytes commitment_id fits_commitment_id))
        (λ t accepted.
          let (m, d, w, found, disputed, record_found, late, paid, same) =
            finalize_dispute-ok (vector_db_config c) ch.system.block_number (signed who)
              commitment_id ch.runtime t accepted in
          (_, ap (λ r. r.events) same, refl))

  pub expire_commitment-answer :
      (who : ℕ) (commitment_id : ℕ) (ch : Chain B)
      → commitment_id < 256 ^ 32
      → expire_commitment (runtime_node c crypto k) who commitment_id ch
        ≡ answer c crypto k
            (trade (VectorDb.Calls.expires ch.system.block_number (signed who) commitment_id))
            ch
  unfolding expire_commitment find_event VectorDb.Calls.call dispatch trade_call trade_call_1
      attempt
  expire_commitment-answer who commitment_id ch fits_commitment_id =
      confirmed-trade who _ "CommitmentExpired"
        (VectorDb.Calls.expires ch.system.block_number (signed who) commitment_id) ch
        (rw (array_of-le_bytes commitment_id fits_commitment_id))
        (λ t accepted.
          let (m, found, waiting, late, same) =
            expire_commitment-ok (vector_db_config c) ch.system.block_number (signed who)
              commitment_id ch.runtime t accepted in
          (commitment_expired commitment_id, ap (λ r. r.events) same, refl))
