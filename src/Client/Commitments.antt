-- ===== src/Client/Commitments.antt =====
-- offchain-vector-db/src/lib.rs: one client for each extrinsic of pallet-vector-db. The two that handle
-- chunks also work on the chunk store of Offchain/Store.antt.
use Prim.Native.String.{String}
use arthneura_core.Base.{
  ℕ, Bool, not, Option, none, some, List, [], ◌∷◌, leb, if◌then◌else◌, length, get_elem?,
}
use arthneura_core.Base.Bytes.{le_bytes}
use arthneura_core.VectorDb.{Hashing}
use arthneura_core.Offchain.{
  Trees, ClientError, chunk_index_out_of_bounds, ready, refused, chunks_of, build_merkle_tree,
  counter_arguments,
}
use arthneura_core.Offchain.Store.{Store, StoreFaults, persist, rekey, load_all_chunks}
use arthneura_core.Client.{
  Value, Event, Node, CallError, CallResult, done, failed, event_missing, confirmed, from_bytes,
  from_array, u128, unnamed_composite, call_and_confirm,
}
use arthneura_core.Client.Arguments.{hash}

abbrev pub pallet_name : String
pallet_name = "VectorDb"

pub record RegisterCommitmentResult : Type 0 where
  pub commitment_id : ℕ
  pub merkle_root : ℕ
  pub total_chunks : ℕ

-- The variants of `RegisterCommitmentError` and `CounterDisputeError`: what is refused before it is
-- submitted, the chunk store, and what all clients share.
pub data ClientResult {ℓ} (A : Type ℓ) : Type ℓ where
  complete : A → ClientResult A
  rejected : ClientError → ClientResult A
  storage : ClientResult A
  call_error : CallError → ClientResult A

-- `decode_fixed_bytes_field`: a field that is missing, or is not 32 bytes, is `None`.
unfoldable pub decode_fixed_bytes_field : List Value → ℕ → Option ℕ
decode_fixed_bytes_field composite index = elim (get_elem? composite index) [
  | none ↦ none
  | some value ↦ hash value
]

abbrev pub byte_arrays : List ℕ → List (List ℕ)
byte_arrays [] = []
byte_arrays (h ∷ hs) = le_bytes 32 h ∷ byte_arrays hs

module _ {S : Type 0} (node : Node S) where
  unfoldable pub acknowledge_commitment : ℕ → ℕ → ℕ → S → S × CallResult (Unit {0})
  acknowledge_commitment signer commitment_id consumer_did s = confirmed tt (
      call_and_confirm node signer
        (record {
          pallet_name = pallet_name;
          call_name = "acknowledge_commitment";
          args = from_array commitment_id ∷ from_array consumer_did ∷ [];
        })
        "CommitmentAcknowledged" s)

  unfoldable pub close_commitment : ℕ → ℕ → ℕ → ℕ → ℕ → S → S × CallResult (Unit {0})
  close_commitment signer commitment_id consumer_did final_stream_hash chunk_count s =
      confirmed tt (
        call_and_confirm node signer
          (record {
            pallet_name = pallet_name;
            call_name = "close_commitment";
            args =
                from_array commitment_id
                ∷ from_array consumer_did
                ∷ from_array final_stream_hash
                ∷ u128 chunk_count
                ∷ [];
          })
          "CommitmentSettled" s)

  unfoldable pub raise_dispute : ℕ → ℕ → ℕ → ℕ → ℕ → ℕ → S → S × CallResult (Unit {0})
  raise_dispute signer commitment_id consumer_did disputed_chunk_index received_chunk_hash
        chunk_count s =
      confirmed tt (
        call_and_confirm node signer
          (record {
            pallet_name = pallet_name;
            call_name = "raise_dispute";
            args =
                from_array commitment_id
                ∷ from_array consumer_did
                ∷ u128 disputed_chunk_index
                ∷ from_array received_chunk_hash
                ∷ u128 chunk_count
                ∷ [];
          })
          "DisputeRaised" s)

  unfoldable pub finalize_dispute : ℕ → ℕ → S → S × CallResult (Unit {0})
  finalize_dispute signer commitment_id s = confirmed tt (
      call_and_confirm node signer
        (record {
          pallet_name = pallet_name;
          call_name = "finalize_dispute";
          args = from_array commitment_id ∷ [];
        })
        "DisputeFinalized" s)

  unfoldable pub expire_commitment : ℕ → ℕ → S → S × CallResult (Unit {0})
  expire_commitment signer commitment_id s = confirmed tt (
      call_and_confirm node signer
        (record {
          pallet_name = pallet_name;
          call_name = "expire_commitment";
          args = from_array commitment_id ∷ [];
        })
        "CommitmentExpired" s)

  module _ {T : Type 0} (k : Hashing) (trees : Trees T) where
    -- The part of `register_commitment` after the submission.
    unfoldable pub settle_chunks :
        StoreFaults
        → ℕ
        → ℕ
        → ℕ
        → Store
        → S × CallResult Event
        → (S × Store) × ClientResult RegisterCommitmentResult
    unfolding decode_fixed_bytes_field
    settle_chunks faults staging_id root total_chunks store (s, failed x) =
        ((s, store), call_error x)
    settle_chunks faults staging_id root total_chunks store (s, done e) =
        elim (decode_fixed_bytes_field e.field_values 0) [
          | none ↦ ((s, store), call_error event_missing)
          | some commitment_id ↦ elim (rekey faults staging_id commitment_id store) [
            | none ↦ ((s, store), storage)
            | some store' ↦ (
              (s, store'),
              complete (record {
                commitment_id = commitment_id;
                merkle_root = root;
                total_chunks = total_chunks;
              }),
            )
          ]
        ]

    -- `in_rows` is `CHUNK_MODE=rows`.
    unfoldable pub register_commitment :
        StoreFaults
        → Bool
        → ℕ
        → ℕ
        → ℕ
        → List ℕ
        → List ℕ
        → ℕ
        → ℕ
        → S × Store
        → (S × Store) × ClientResult RegisterCommitmentResult
    unfolding settle_chunks
    register_commitment faults in_rows signer provider_did consumer_did payload metadata
          expires_in_blocks price (s, store) =
        elim (chunks_of in_rows payload metadata) [
          | refused e ↦ ((s, store), rejected e)
          | ready chunks ↦ elim (build_merkle_tree k trees chunks) [
            | refused e ↦ ((s, store), rejected e)
            | ready (root, tree) ↦
                let staging_id = k.blake2_256 payload in
                let (store', saved) = persist faults staging_id chunks store in
                if not saved
                then ((s, store'), storage)
                else settle_chunks faults staging_id root (length chunks) store' (
                    call_and_confirm node signer
                      (record {
                        pallet_name = pallet_name;
                        call_name = "register_commitment";
                        args =
                            from_array provider_did
                            ∷ from_array consumer_did
                            ∷ from_array root
                            ∷ u128 (length chunks)
                            ∷ from_bytes metadata
                            ∷ u128 expires_in_blocks
                            ∷ u128 price
                            ∷ [];
                      })
                      "CommitmentRegistered" s)
          ]
        ]

    -- The result of a submission, beside the chunk store that it leaves alone.
    abbrev answered : Store → S × CallResult (Unit {0}) → (S × Store) × ClientResult (Unit {0})
    answered store (s, done u) = ((s, store), complete tt)
    answered store (s, failed x) = ((s, store), call_error x)

    unfoldable pub counter_dispute :
        ℕ → ℕ → ℕ → ℕ → ℕ → S × Store → (S × Store) × ClientResult (Unit {0})
    counter_dispute signer commitment_id provider_did disputed_chunk_index total_chunks (s, store) =
        if leb total_chunks disputed_chunk_index
        then ((s, store), rejected (chunk_index_out_of_bounds disputed_chunk_index total_chunks))
        else elim (load_all_chunks commitment_id total_chunks store) [
          | none ↦ ((s, store), storage)
          | some chunks ↦
              elim (counter_arguments k trees chunks disputed_chunk_index total_chunks) [
                | refused e ↦ ((s, store), rejected e)
                | ready (target_chunk, proof_hashes) ↦ answered store (
                    confirmed tt (
                      call_and_confirm node signer
                        (record {
                          pallet_name = pallet_name;
                          call_name = "counter_dispute";
                          args =
                              from_array commitment_id
                              ∷ from_array provider_did
                              ∷ from_bytes target_chunk
                              ∷ unnamed_composite (byte_arrays proof_hashes)
                              ∷ [];
                        })
                        "DisputeCountered" s))
              ]
        ]
