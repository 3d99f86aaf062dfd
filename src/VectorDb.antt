-- ===== src/VectorDb.antt =====
-- pallets/pallet-vector-db/src/lib.rs: the seven extrinsics of the commitment registry. A call takes
-- the current block, the origin, its arguments and the storage, and returns the new storage or the
-- error; `Frame.committed` says what is kept.
mod Types
pub mod Outcome
pub mod DisputeOutcome
pub mod Calls
pub mod Preserved
pub mod Lifecycle
pub mod Disputes
pub mod Verdicts
pub mod Binding
pub mod CommitmentId
pub mod Invariant
mod Tests
pub use Types.*
use arthneura_core.Base.{
  ℕ, ◌-◌, ◌%◌, Bool, true, false, not, ◌||◌, Option, none, some, List, [], ◌∷◌, ◌++◌, ◌==◌, ltb,
  leb, saturating_add,
}
use arthneura_core.Base.Map.{lookup, contains_key, insert, remove}
use arthneura_core.Base.Bytes.{le_bytes, ascii}
use arthneura_core.Errors.{
  commitment_already_exists, commitment_not_found, not_provider, not_consumer,
  provider_not_eligible, consumer_not_eligible, self_trade, expiry_must_be_positive, expiry_too_far,
  commitment_expired_error, not_pending, not_active, not_disputed, already_finalized,
  stream_hash_mismatch, invalid_merkle_proof, dispute_already_raised, dispute_window_still_open,
  dispute_window_expired, not_yet_expired, total_chunks_must_be_positive, invalid_merkle_root,
  chunk_index_out_of_bounds,
}
use arthneura_core.Frame.{
  Origin, Result, ok, err, ◌>>=◌, ◌>>◌, ensure, ok_or, ensure_signed, vector_db,
}

-- `left ++ right` hashed, or `left` alone where there is no right sibling.
unfoldable pub concat_and_hash : (List ℕ → ℕ) → ℕ → Option ℕ → ℕ
concat_and_hash blake2_256 left (some right) = blake2_256 (le_bytes 32 left ++ le_bytes 32 right)
concat_and_hash blake2_256 left none = left

-- `impl rs_merkle::Hasher for Blake2bHasher`
unfoldable pub blake2b_hasher : Hashing → Hasher
unfolding concat_and_hash
blake2b_hasher k = record { hash = k.blake2_256; concat_and_hash = concat_and_hash k.blake2_256 }

-- `as usize` in the WASM runtime, where `usize` has 32 bits.
abbrev pub as_usize : ℕ → ℕ
as_usize n = n % 4294967296

-- The bytes that a commitment id is the hash of.
unfoldable pub preimage : ℕ → ℕ → ℕ → ℕ → List ℕ
preimage provider_did consumer_did merkle_root current_block =
    ascii "ArthNeura-Vector-v1"
    ++ (le_bytes 32 provider_did
        ++ (le_bytes 32 consumer_did ++ (le_bytes 32 merkle_root ++ le_bytes 4 current_block)))

unfoldable pub commitment_id_of : Hashing → ℕ → ℕ → ℕ → ℕ → ℕ
commitment_id_of k provider_did consumer_did merkle_root current_block =
    k.blake2_256 (preimage provider_did consumer_did merkle_root current_block)

module _ {W : Type 0} where
  -- `GenesisConfig::build`
  unfoldable pub build : Option ℕ → VectorDb W → VectorDb W
  build none s = s
  build (some w) s = record s { dispute_window_override = some w }

module _ {W : Type 0} (cfg : Config W) where
  unfoldable pub effective_dispute_window : VectorDb W → ℕ
  effective_dispute_window s = elim s.dispute_window_override [
    | none ↦ cfg.dispute_window
    | some w ↦ w
  ]

  unfoldable pub register_commitment :
      Hashing → ℕ → Origin → ℕ → ℕ → ℕ → ℕ → List ℕ → ℕ → ℕ → VectorDb W → Result (VectorDb W)
  register_commitment k now origin provider_did consumer_did merkle_root total_chunks metadata
        expires_in_blocks price s =
      do
        caller ← ensure_signed origin
        ensure (not (provider_did == consumer_did)) (vector_db self_trade)
        ensure (ltb 0 total_chunks) (vector_db total_chunks_must_be_positive)
        ensure (not (merkle_root == 0)) (vector_db invalid_merkle_root)
        provider_controller ←
            ok_or (cfg.agents.controller_of s.world provider_did) (vector_db provider_not_eligible)
        ensure (provider_controller == caller) (vector_db not_provider)
        ensure (cfg.agents.is_active_verified s.world provider_did)
            (vector_db provider_not_eligible)
        ensure (cfg.agents.is_active_verified s.world consumer_did)
            (vector_db consumer_not_eligible)
        ensure (ltb 0 expires_in_blocks) (vector_db expiry_must_be_positive)
        ensure (leb expires_in_blocks cfg.max_commitment_lifetime) (vector_db expiry_too_far)
        let expires_at = saturating_add now expires_in_blocks
        let commitment_id = commitment_id_of k provider_did consumer_did merkle_root now
        ensure (not (contains_key commitment_id s.vector_commitments))
            (vector_db commitment_already_exists)
        ok (record s {
          vector_commitments =
              insert commitment_id
                (record {
                  commitment_id = commitment_id;
                  provider = provider_did;
                  consumer = consumer_did;
                  merkle_root = merkle_root;
                  total_chunks = total_chunks;
                  metadata = metadata;
                  status = pending;
                  created_at = now;
                  expires_at = expires_at;
                  acknowledged_at = none;
                  price = price;
                })
                s.vector_commitments;
          active_commitment_count = saturating_add s.active_commitment_count 1;
          events =
              commitment_registered commitment_id provider_did consumer_did merkle_root total_chunks
                expires_at metadata
              ∷ s.events;
        })

  unfoldable pub acknowledge_commitment : ℕ → Origin → ℕ → ℕ → VectorDb W → Result (VectorDb W)
  acknowledge_commitment now origin commitment_id consumer_did s = do
    caller ← ensure_signed origin
    commitment ← ok_or (lookup commitment_id s.vector_commitments) (vector_db commitment_not_found)
    ensure (is_pending commitment.status) (vector_db not_pending)
    ensure (ltb now commitment.expires_at) (vector_db commitment_expired_error)
    ensure (commitment.consumer == consumer_did) (vector_db not_consumer)
    consumer_controller ←
        ok_or (cfg.agents.controller_of s.world consumer_did) (vector_db consumer_not_eligible)
    ensure (consumer_controller == caller) (vector_db not_consumer)
    ensure (cfg.agents.is_active_verified s.world consumer_did) (vector_db consumer_not_eligible)
    provider_controller ←
        ok_or (cfg.agents.controller_of s.world commitment.provider)
          (vector_db provider_not_eligible)
    world ← cfg.escrow.lock now commitment_id caller provider_controller commitment.price s.world
    ok (record s {
      vector_commitments =
          insert commitment_id (record commitment { status = active; acknowledged_at = some now })
            s.vector_commitments;
      world = world;
      events = commitment_acknowledged commitment_id now ∷ s.events;
    })

  unfoldable pub close_commitment : ℕ → Origin → ℕ → ℕ → ℕ → ℕ → VectorDb W → Result (VectorDb W)
  close_commitment now origin commitment_id consumer_did final_stream_hash chunk_count s = do
    caller ← ensure_signed origin
    commitment ← ok_or (lookup commitment_id s.vector_commitments) (vector_db commitment_not_found)
    ensure (is_active commitment.status) (vector_db not_active)
    ensure (ltb now commitment.expires_at) (vector_db commitment_expired_error)
    ensure (commitment.consumer == consumer_did) (vector_db not_consumer)
    consumer_controller ←
        ok_or (cfg.agents.controller_of s.world consumer_did) (vector_db consumer_not_eligible)
    ensure (consumer_controller == caller) (vector_db not_consumer)
    ensure (cfg.agents.is_active_verified s.world consumer_did) (vector_db consumer_not_eligible)
    ensure (final_stream_hash == commitment.merkle_root) (vector_db stream_hash_mismatch)
    world ← cfg.escrow.release commitment_id s.world
    ok (record s {
      stream_receipts =
          insert commitment_id
            (record {
              commitment_id = commitment_id;
              final_stream_hash = final_stream_hash;
              chunk_count = chunk_count;
              submitted_at = now;
            })
            s.stream_receipts;
      vector_commitments =
          insert commitment_id (record commitment { status = settled }) s.vector_commitments;
      active_commitment_count = s.active_commitment_count - 1;
      world = world;
      events = commitment_settled commitment_id final_stream_hash chunk_count ∷ s.events;
    })

  -- The last argument of the extrinsic, `_chunk_count`, is not used.
  unfoldable pub raise_dispute : ℕ → Origin → ℕ → ℕ → ℕ → ℕ → ℕ → VectorDb W → Result (VectorDb W)
  unfolding effective_dispute_window
  raise_dispute now origin commitment_id consumer_did disputed_chunk_index received_chunk_hash
        chunk_count s =
      do
        caller ← ensure_signed origin
        commitment ←
            ok_or (lookup commitment_id s.vector_commitments) (vector_db commitment_not_found)
        ensure (is_active commitment.status) (vector_db not_active)
        ensure (commitment.consumer == consumer_did) (vector_db not_consumer)
        ensure (ltb now commitment.expires_at) (vector_db commitment_expired_error)
        consumer_controller ←
            ok_or (cfg.agents.controller_of s.world consumer_did) (vector_db consumer_not_eligible)
        ensure (consumer_controller == caller) (vector_db not_consumer)
        ensure (cfg.agents.is_active_verified s.world consumer_did)
            (vector_db consumer_not_eligible)
        ensure (not (contains_key commitment_id s.dispute_records))
            (vector_db dispute_already_raised)
        ensure (ltb disputed_chunk_index commitment.total_chunks)
            (vector_db chunk_index_out_of_bounds)
        let counter_deadline = saturating_add now (effective_dispute_window s)
        ok (record s {
          dispute_records =
              insert commitment_id
                (record {
                  commitment_id = commitment_id;
                  merkle_root = commitment.merkle_root;
                  received_chunk_hash = received_chunk_hash;
                  disputed_chunk_index = disputed_chunk_index;
                  raised_at = now;
                  counter_deadline = counter_deadline;
                  verdict = none;
                })
                s.dispute_records;
          vector_commitments =
              insert commitment_id (record commitment { status = disputed }) s.vector_commitments;
          events =
              dispute_raised commitment_id commitment.merkle_root disputed_chunk_index
                received_chunk_hash counter_deadline
              ∷ s.events;
        })

  unfoldable pub counter_dispute :
      Hashing → ℕ → Origin → ℕ → ℕ → List ℕ → List ℕ → VectorDb W → Result (VectorDb W)
  counter_dispute k now origin commitment_id provider_did chunk_data merkle_proof s = do
    caller ← ensure_signed origin
    commitment ← ok_or (lookup commitment_id s.vector_commitments) (vector_db commitment_not_found)
    ensure (is_disputed commitment.status) (vector_db not_disputed)
    ensure (commitment.provider == provider_did) (vector_db not_provider)
    provider_controller ←
        ok_or (cfg.agents.controller_of s.world provider_did) (vector_db provider_not_eligible)
    ensure (provider_controller == caller) (vector_db not_provider)
    ensure (cfg.agents.is_active_verified s.world provider_did) (vector_db provider_not_eligible)
    dispute ← ok_or (lookup commitment_id s.dispute_records) (vector_db commitment_not_found)
    ensure (leb now dispute.counter_deadline) (vector_db dispute_window_expired)
    ensure (ltb dispute.disputed_chunk_index commitment.total_chunks)
        (vector_db chunk_index_out_of_bounds)
    let leaf_hash = k.blake2_256 chunk_data
    ensure
        (k.verify_proof (blake2b_hasher k) merkle_proof commitment.merkle_root
          (as_usize dispute.disputed_chunk_index ∷ []) (leaf_hash ∷ [])
          (as_usize commitment.total_chunks))
        (vector_db invalid_merkle_proof)
    world ← cfg.escrow.release commitment_id s.world
    ok (record s {
      dispute_records =
          insert commitment_id (record dispute { verdict = some claimant_unsubstantiated })
            s.dispute_records;
      vector_commitments =
          insert commitment_id (record commitment { status = dispute_resolved })
            s.vector_commitments;
      active_commitment_count = s.active_commitment_count - 1;
      world = cfg.reputation.penalize_false_disputer commitment.consumer world;
      events = dispute_countered commitment_id claimant_unsubstantiated ∷ s.events;
    })

  unfoldable pub finalize_dispute : ℕ → Origin → ℕ → VectorDb W → Result (VectorDb W)
  finalize_dispute now origin commitment_id s = do
    caller ← ensure_signed origin
    commitment ← ok_or (lookup commitment_id s.vector_commitments) (vector_db commitment_not_found)
    ensure (is_disputed commitment.status) (vector_db not_disputed)
    dispute ← ok_or (lookup commitment_id s.dispute_records) (vector_db commitment_not_found)
    ensure (ltb dispute.counter_deadline now) (vector_db dispute_window_still_open)
    world ← cfg.escrow.refund commitment_id s.world
    ok (record s {
      dispute_records =
          insert commitment_id (record dispute { verdict = some provider_guilty })
            s.dispute_records;
      vector_commitments =
          insert commitment_id (record commitment { status = dispute_resolved })
            s.vector_commitments;
      active_commitment_count = s.active_commitment_count - 1;
      world = cfg.reputation.penalize_provider commitment.provider world;
      events =
          dispute_finalized commitment_id provider_guilty commitment.provider commitment.consumer
          ∷ s.events;
    })

  unfoldable pub expire_commitment : ℕ → Origin → ℕ → VectorDb W → Result (VectorDb W)
  expire_commitment now origin commitment_id s = do
    caller ← ensure_signed origin
    commitment ← ok_or (lookup commitment_id s.vector_commitments) (vector_db commitment_not_found)
    ensure (is_pending commitment.status || is_active commitment.status)
        (vector_db already_finalized)
    ensure (leb commitment.expires_at now) (vector_db not_yet_expired)
    ok (record s {
      vector_commitments = remove commitment_id s.vector_commitments;
      active_commitment_count = s.active_commitment_count - 1;
      events = commitment_expired commitment_id ∷ s.events;
    })
