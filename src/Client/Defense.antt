-- ===== src/Client/Defense.antt =====
-- The client `counter_dispute` of offchain-vector-db/src/lib.rs on a node that runs the runtime: from the chunk
-- files to the verdict.
use arthneura_core.Base.{
  ℕ, ◌≡◌, ap, ◌<◌, ◌≤◌, ◌^◌, some, List, [], ◌∷◌, arith, inl, inr, get_elem?, Option-cases, length,
}
use arthneura_core.Base.Map.{lookup}
use arthneura_core.Frame.{ok, signed}
use arthneura_core.Currency.{Currency}
use arthneura_core.AgentRegistry.{Crypto}
use arthneura_core.VectorDb.{
  VectorDb, Hashing, VectorCommitment, DisputeRecord, disputed, dispute_resolved,
  claimant_unsubstantiated, commitment_id_of, commitment_registered, dispute_countered,
}
use arthneura_core.VectorDb
use arthneura_core.VectorDb.Outcome.{Acts}
use arthneura_core.VectorDb.DisputeOutcome.{counter_dispute-ok}
use arthneura_core.Runtime.{World, vector_db_config}
use arthneura_core.Runtime
use arthneura_core.Runtime.History.{trade}
use arthneura_core.Offchain.{Trees, ready, build_merkle_tree, counter_arguments}
use arthneura_core.Offchain.Chunks.{Prepared-cases}
use arthneura_core.Offchain.Honest.{IsComplete, counter_dispute-honest}
use arthneura_core.Offchain.Store.{Store, load_all_chunks}
use arthneura_core.Client.{
  Tx, Event, done, find_event, call_and_confirm, from_array, from_bytes, unnamed_composite,
}
use arthneura_core.Client.Arguments.{bounded_hashes, max_chunk_len, max_proof_depth}
use arthneura_core.Client.Dispatch.{dispatch, trade_call, trade_call_4}
use arthneura_core.Client.Chain.{Chain, attempt, runtime_node, trade_event}
use arthneura_core.Client.Decode.{
  array_of-le_bytes, bounded-from_bytes, AllHashes, arrays-byte_arrays, length-byte_arrays,
}
use arthneura_core.Client.Commitments.{pallet_name, byte_arrays, complete, counter_dispute}
use arthneura_core.Client.Answer.{confirmed_event, deposits-trade}

-- The transaction of `counter_dispute`.
abbrev countering : ℕ → ℕ → List ℕ → List ℕ → Tx
countering commitment_id provider_did target_chunk proof_hashes = record {
  pallet_name = pallet_name;
  call_name = "counter_dispute";
  args =
      from_array commitment_id
      ∷ from_array provider_did
      ∷ from_bytes target_chunk
      ∷ unnamed_composite (byte_arrays proof_hashes)
      ∷ [];
}

-- What is prepared for a dispute is within the bounds.
counter_arguments-bounds :
    {T : Type 0} (k : Hashing) (trees : Trees T) (chunks : List (List ℕ)) (index total : ℕ)
    (chunk proof : List ℕ)
    → counter_arguments k trees chunks index total ≡ ready (chunk, proof)
    → (index < total) × (length chunk ≤ max_chunk_len) × (length proof ≤ max_proof_depth)
unfolding counter_arguments
counter_arguments-bounds k trees chunks index total chunk proof e =
    elim (Option-cases (get_elem? chunks index)) [
      | inl outside ↦ absurd (ground arith)
      | inr (target, at) ↦ elim (Prepared-cases (build_merkle_tree k trees chunks)) [
        | inl (x, broken) ↦ absurd (ground arith)
        | inr (built, same) ↦ (ground arith, ground arith, ground arith)
      ]
    ]

module _ {B : Type 0} (c : Currency B) (crypto : Crypto) (k : Hashing) where
  -- The transaction of `counter_dispute` is dispatched as the extrinsic, and answered.
  counter-answer :
      (who id provider_did : ℕ) (chunk proof : List ℕ) (ch : Chain B) (t : VectorDb (World B))
      → id < 256 ^ 32
      → provider_did < 256 ^ 32
      → length chunk ≤ max_chunk_len
      → length proof ≤ max_proof_depth
      → AllHashes proof
      → VectorDb.counter_dispute
          (vector_db_config c)
          k
          ch.system.block_number
          (signed who)
          id
          provider_did
          chunk
          proof
          ch.runtime
        ≡ ok t
      → (e : Event) × (call_and_confirm
            (runtime_node c crypto k)
            who
            (countering id provider_did chunk proof)
            "DisputeCountered"
            ch
          ≡ (record ch { runtime = t }, done e))
  unfolding find_event attempt VectorDb.Calls.call dispatch trade_call trade_call_4
  counter-answer who id provider_did chunk proof ch t f0 f1 f2 f3 f4 accepted =
      let (
        by, m, d, w, is_by, found, is, named, acts, recorded, early, within, verified, paid, same,
      ) =
        counter_dispute-ok (vector_db_config c) k ch.system.block_number (signed who) id
          provider_did chunk proof ch.runtime t accepted in
      let x =
        VectorDb.Calls.counters ch.system.block_number (signed who) id provider_did chunk proof in
      let e = dispute_countered id claimant_unsubstantiated in
      let depth : length (byte_arrays proof) ≤ max_proof_depth = rw (length-byte_arrays proof) f3 in
      let hashes : bounded_hashes max_proof_depth (unnamed_composite (byte_arrays proof))
          ≡ some proof =
        ground (arith, arrays-byte_arrays proof f4) in
      (
        trade_event e,
        confirmed_event c crypto k who (countering id provider_did chunk proof) "DisputeCountered"
            (trade x) ch t (trade_event e)
            (rw (
              array_of-le_bytes id f0,
              array_of-le_bytes provider_did f1,
              bounded-from_bytes max_chunk_len chunk f2,
              hashes,
            ))
            accepted (rw (deposits-trade c crypto k x ch.runtime t e (ap (λ r. r.events) same))),
      )

  -- A provider that still has the chunks it has committed to (fewer than 2^32 of them) wins every dispute
  -- with its client. While the window is open, if its agent is active, the escrow can be released, the
  -- chunk files are there, and the client finds the disputed chunk and its proof within the bounds, the
  -- client completes, the commitment is resolved and the verdict is against the claim.
  pub counter_dispute-complete :
      {T : Type 0} (trees : Trees T) (complete_trees : IsComplete k trees) (who id : ℕ)
      (chunks : List (List ℕ)) (tree : T) (chunk proof : List ℕ) (m : VectorCommitment)
      (d : DisputeRecord) (w : World B) (ch : Chain B) (store : Store)
      → lookup id ch.runtime.vector_commitments ≡ some m
      → m.status ≡ disputed
      → lookup id ch.runtime.dispute_records ≡ some d
      → ch.system.block_number ≤ d.counter_deadline
      → Acts (vector_db_config c) who m.provider ch.runtime
      → Runtime.release c id ch.runtime.world ≡ ok w
      → build_merkle_tree k trees chunks ≡ ready (m.merkle_root, tree)
      → m.total_chunks ≡ length chunks
      → length chunks < 2 ^ 32
      → load_all_chunks id m.total_chunks store ≡ some chunks
      → counter_arguments k trees chunks d.disputed_chunk_index m.total_chunks
        ≡ ready (chunk, proof)
      → AllHashes proof
      → id < 256 ^ 32
      → m.provider < 256 ^ 32
      → (t : VectorDb (World B)) × (counter_dispute
            (runtime_node c crypto k)
            k
            trees
            who
            id
            m.provider
            d.disputed_chunk_index
            m.total_chunks
            (ch, store)
          ≡ ((record ch { runtime = t }, store), complete tt))
        × (lookup id t.vector_commitments ≡ some (record m { status = dispute_resolved }))
        × (lookup id t.dispute_records
            ≡ some (record d { verdict = some claimant_unsubstantiated }))
  unfolding counter_dispute counter_arguments
  counter_dispute-complete trees complete_trees who id chunks tree chunk proof m d w ch store found
        is recorded early acts paid built count small loaded prepared hashes f0 f1 =
      let (t, accepted, resolved, decided) =
        counter_dispute-honest k trees complete_trees (vector_db_config c) ch.system.block_number
          who id chunks tree chunk proof m d w ch.runtime found is recorded early acts paid built
          count (omega arith) prepared in
      let (index_ok, chunk_ok, proof_ok) =
        counter_arguments-bounds k trees chunks d.disputed_chunk_index m.total_chunks chunk proof
          prepared in
      let (e, sent) =
        counter-answer who id m.provider chunk proof ch t f0 f1 chunk_ok proof_ok hashes accepted in
      (t, ground arith, resolved, decided)
