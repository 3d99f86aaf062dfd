-- ===== src/Client/Delivery.antt =====
-- The client `register_commitment` of offchain-vector-db/src/lib.rs on a node that runs the runtime: from the
-- payload to the commitment and the chunk files.
use arthneura_core.Base.{
  ℕ, ◌≡◌, ◌≢◌, refl, ap, ◌<◌, ◌≤◌, ◌^◌, Bool, none, some, List, [], ◌∷◌, arith, ==_refl, length,
  saturating_add,
}
use arthneura_core.Base.Map.{lookup, lookup-insert}
use arthneura_core.Frame.{ok, signed}
use arthneura_core.Currency.{Currency}
use arthneura_core.AgentRegistry.{Crypto}
use arthneura_core.VectorDb.{
  VectorDb, Hashing, VectorCommitment, DisputeRecord, disputed, dispute_resolved,
  claimant_unsubstantiated, commitment_id_of, commitment_registered, dispute_countered,
}
use arthneura_core.VectorDb
use arthneura_core.VectorDb.Outcome.{register_commitment-ok, new_commitment}
use arthneura_core.Runtime.{World, vector_db_config}
use arthneura_core.Runtime.History.{trade}
use arthneura_core.Offchain.{Trees, ready, chunks_of, build_merkle_tree}
use arthneura_core.Offchain.Chunks.{chunks_of-AllSized}
use arthneura_core.Offchain.Store.{
  Store, StoreFaults, TakesWrites, load_all_chunks, load_all_chunks-rekey-persist,
}
use arthneura_core.Client.{
  Tx, Event, done, find_event, call_and_confirm, from_array, from_bytes, u128,
}
use arthneura_core.Client.Arguments.{max_metadata_len}
use arthneura_core.Client.Dispatch.{dispatch, trade_call, trade_call_7}
use arthneura_core.Client.Chain.{Chain, attempt, runtime_node, trade_event}
use arthneura_core.Client.Decode.{array_of-le_bytes, uint-u128, bounded-from_bytes}
use arthneura_core.Client.Commitments.{
  pallet_name, complete, decode_fixed_bytes_field, settle_chunks, register_commitment,
}
use arthneura_core.Client.Answer.{confirmed_event, deposits-trade}

-- The transaction of `register_commitment`.
abbrev registration : ℕ → ℕ → ℕ → ℕ → List ℕ → ℕ → ℕ → Tx
registration provider_did consumer_did root total_chunks metadata expires_in_blocks price = record {
  pallet_name = pallet_name;
  call_name = "register_commitment";
  args =
      from_array provider_did
      ∷ from_array consumer_did
      ∷ from_array root
      ∷ u128 total_chunks
      ∷ from_bytes metadata
      ∷ u128 expires_in_blocks
      ∷ u128 price
      ∷ [];
}

module _ {B : Type 0} (c : Currency B) (crypto : Crypto) (k : Hashing) where
  -- What the provider's node answers to a registration that the pallet accepts.
  registration-event :
      (who provider_did consumer_did root total_chunks : ℕ) (metadata : List ℕ)
      (expires_in_blocks price : ℕ) (ch : Chain B) (t : VectorDb (World B))
      → provider_did < 256 ^ 32
      → consumer_did < 256 ^ 32
      → root < 256 ^ 32
      → total_chunks < 2 ^ 64
      → length metadata ≤ max_metadata_len
      → expires_in_blocks < 2 ^ 32
      → price < 2 ^ 128
      → VectorDb.register_commitment
          (vector_db_config c)
          k
          ch.system.block_number
          (signed who)
          provider_did
          consumer_did
          root
          total_chunks
          metadata
          expires_in_blocks
          price
          ch.runtime
        ≡ ok t
      → (e : Event) × (e.field_values
          ≡ from_array (commitment_id_of k provider_did consumer_did root ch.system.block_number)
            ∷ [])
        × (call_and_confirm
              (runtime_node c crypto k)
              who
              (registration provider_did consumer_did root total_chunks metadata expires_in_blocks
                price)
              "CommitmentRegistered"
              ch
            ≡ (record ch { runtime = t }, done e))
  unfolding find_event attempt VectorDb.Calls.call dispatch trade_call trade_call_7
  registration-event who provider_did consumer_did root total_chunks metadata expires_in_blocks
        price ch t f0 f1 f2 f3 f4 f5 f6 accepted =
      let (by, is_by, acts, verified, other, positive, nonzero, lives, short, new, same) =
        register_commitment-ok (vector_db_config c) k ch.system.block_number (signed who)
          provider_did consumer_did root total_chunks metadata expires_in_blocks price ch.runtime t
          accepted in
      let x =
        VectorDb.Calls.registers ch.system.block_number (signed who) provider_did consumer_did root
          total_chunks metadata expires_in_blocks price in
      let id = commitment_id_of k provider_did consumer_did root ch.system.block_number in
      let e =
        commitment_registered id provider_did consumer_did root total_chunks
          (saturating_add ch.system.block_number expires_in_blocks) metadata in
      (
        trade_event e,
        refl,
        confirmed_event c crypto k who
            (registration provider_did consumer_did root total_chunks metadata expires_in_blocks
              price)
            "CommitmentRegistered" (trade x) ch t (trade_event e)
            (rw (
              array_of-le_bytes provider_did f0,
              array_of-le_bytes consumer_did f1,
              array_of-le_bytes root f2,
              uint-u128 64 total_chunks f3,
              bounded-from_bytes max_metadata_len metadata f4,
              uint-u128 32 expires_in_blocks f5,
              uint-u128 128 price f6,
            ))
            accepted (rw (deposits-trade c crypto k x ch.runtime t e (ap (λ r. r.events) same))),
      )

  -- A registration with its client ends in a commitment and its chunks. Where the disk takes every write and
  -- the rename, the payload is cut into `chunks` with the root `root`, the arguments are within the
  -- bounds of the pallet, the pallet accepts the commitment, its id has 32 bytes and is not the hash of the
  -- payload, and nothing is stored under it yet, the client completes: it reports the id, root and number of chunks under which the runtime has stored the commitment, and the chunk files under that id
  -- are read back whole and in order.
  pub register_commitment-complete :
      {T : Type 0} (trees : Trees T) (faults : StoreFaults) (in_rows : Bool)
      (who provider_did consumer_did : ℕ) (payload metadata : List ℕ) (expires_in_blocks price : ℕ)
      (ch : Chain B) (store : Store) (chunks : List (List ℕ)) (root : ℕ) (tree : T)
      (t : VectorDb (World B))
      → TakesWrites faults
      → chunks_of in_rows payload metadata ≡ ready chunks
      → build_merkle_tree k trees chunks ≡ ready (root, tree)
      → provider_did < 256 ^ 32
      → consumer_did < 256 ^ 32
      → root < 256 ^ 32
      → length chunks < 2 ^ 64
      → expires_in_blocks < 2 ^ 32
      → price < 2 ^ 128
      → VectorDb.register_commitment
          (vector_db_config c)
          k
          ch.system.block_number
          (signed who)
          provider_did
          consumer_did
          root
          (length chunks)
          metadata
          expires_in_blocks
          price
          ch.runtime
        ≡ ok t
      → commitment_id_of k provider_did consumer_did root ch.system.block_number < 256 ^ 32
      → k.blake2_256 payload
        ≢ commitment_id_of k provider_did consumer_did root ch.system.block_number
      → lookup (commitment_id_of k provider_did consumer_did root ch.system.block_number) store
        ≡ none
      → (store' : Store) × (id : ℕ) × (m : VectorCommitment) × (register_commitment
            (runtime_node c crypto k)
            k
            trees
            faults
            in_rows
            who
            provider_did
            consumer_did
            payload
            metadata
            expires_in_blocks
            price
            (ch, store)
          ≡ (
            (record ch { runtime = t }, store'),
            complete
                (record { commitment_id = id; merkle_root = root; total_chunks = length chunks }),
          ))
        × (id ≡ commitment_id_of k provider_did consumer_did root ch.system.block_number)
        × (lookup id t.vector_commitments ≡ some m)
        × (m.provider ≡ provider_did)
        × (m.merkle_root ≡ root)
        × (m.total_chunks ≡ length chunks)
        × (load_all_chunks id (length chunks) store' ≡ some chunks)
  unfolding register_commitment settle_chunks decode_fixed_bytes_field
  register_commitment-complete trees faults in_rows who provider_did consumer_did payload metadata
        expires_in_blocks price ch store chunks root tree t takes cut built f0 f1 f2 f3 f5 f6
        accepted fits other new =
      let id = commitment_id_of k provider_did consumer_did root ch.system.block_number in
      let staging_id = k.blake2_256 payload in
      let (small, _, _, _) = chunks_of-AllSized in_rows payload metadata chunks cut in
      let (e, fields, sent) =
        registration-event who provider_did consumer_did root (length chunks) metadata
          expires_in_blocks price ch t f0 f1 f2 f3 small f5 f6 accepted in
      let (staged, store', saved, moved, back) =
        load_all_chunks-rekey-persist faults staging_id id chunks store takes other new in
      let (_, _, _, _, _, _, _, _, _, _, same) =
        register_commitment-ok (vector_db_config c) k ch.system.block_number (signed who)
          provider_did consumer_did root (length chunks) metadata expires_in_blocks price ch.runtime
          t accepted in
      let decoded : decode_fixed_bytes_field e.field_values 0 ≡ some id =
        rw (fields, array_of-le_bytes id fits) in
      (
        store',
        id,
        new_commitment id provider_did consumer_did root (length chunks) metadata
            ch.system.block_number (saturating_add ch.system.block_number expires_in_blocks) price,
        ground arith,
        refl,
        rw (same, lookup-insert, ==_refl),
        refl,
        refl,
        refl,
        back,
      )
