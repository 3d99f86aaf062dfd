-- ===== src/Offchain/Honest.antt =====
-- An honest provider and a false dispute: offchain-vector-db/src/merkle.rs against `counter_dispute` of
-- pallets/pallet-vector-db/src/lib.rs.
use arthneura_core.Base.{
  ℕ, zero, suc, ◌<◌, ◌≤◌, ◌≡◌, refl, ap, inl, inr, true, Option, none, some, List, [], ◌∷◌, arith,
  ==_refl, length, get_elem?, Option-cases,
}
use arthneura_core.Base.Map.{lookup, lookup-insert}
use arthneura_core.Frame.{signed, ok, Result-cases}
use arthneura_core.VectorDb.{
  VectorCommitment, DisputeRecord, VectorDb, Config, Hashing, Hasher, disputed, dispute_resolved,
  as_usize, concat_and_hash, blake2b_hasher, counter_dispute, claimant_unsubstantiated,
}
use arthneura_core.VectorDb.Outcome.{Acts}
use arthneura_core.VectorDb.DisputeOutcome.{counter_dispute-ok}
use arthneura_core.Offchain.{
  Trees, ready, merkle_concat, merkle_hasher, leaf_hashes, build_merkle_tree,
  generate_inclusion_proof, counter_arguments,
}

-- What the documentation of `rs_merkle` says of a proof: the one that a tree gives for a leaf verifies
-- against the root of the tree, the index and the hash of the leaf, and the number of leaves.
pub record IsComplete {T : Type 0} (k : Hashing) (trees : Trees T) : Type 0 where
  pub verifies :
      (h : Hasher) (leaves : List ℕ) (i leaf root : ℕ)
      → get_elem? leaves i ≡ some leaf
      → trees.root (trees.from_leaves h leaves) ≡ some root
      → k.verify_proof h
          (trees.proof_hashes (trees.from_leaves h leaves) (i ∷ []))
          root
          (i ∷ [])
          (leaf ∷ [])
          (length leaves)
        ≡ true

concat_agrees :
    (h : List ℕ → ℕ) (l : ℕ) (r : Option ℕ) → merkle_concat h l r ≡ concat_and_hash h l r
unfolding merkle_concat concat_and_hash
concat_agrees h l none = refl
concat_agrees h l (some r) = refl

-- The hasher of the client is the hasher of the pallet.
pub merkle_hasher-eq-blake2b_hasher : (k : Hashing) → merkle_hasher k ≡ blake2b_hasher k
unfolding merkle_hasher blake2b_hasher
merkle_hasher-eq-blake2b_hasher k =
    λ i. record { hash = k.blake2_256; concat_and_hash = λ l r. concat_agrees k.blake2_256 l r i }

leaf_hashes-get :
    (k : Hashing) (chunks : List (List ℕ)) (i : ℕ) (chunk : List ℕ)
    → get_elem? chunks i ≡ some chunk
    → get_elem? (leaf_hashes k chunks) i ≡ some (k.blake2_256 chunk)
unfolding leaf_hashes
leaf_hashes-get k [] i chunk e = absurd (cc)
leaf_hashes-get k (c ∷ cs) zero chunk e =
    let same : c ≡ chunk = cc in ap (λ x. some (k.blake2_256 x)) same
leaf_hashes-get k (c ∷ cs) (suc i) chunk e = leaf_hashes-get k cs i chunk e

length-leaf_hashes :
    (k : Hashing) (chunks : List (List ℕ)) → length (leaf_hashes k chunks) ≡ length chunks
unfolding leaf_hashes
length-leaf_hashes k [] = refl
length-leaf_hashes k (c ∷ cs) = ap (λ (n : ℕ). suc n) (length-leaf_hashes k cs)

module _ {T : Type 0} (k : Hashing) (trees : Trees T) (complete : IsComplete k trees) where
  -- What the client submits for a chunk is the chunk, and a proof of it that the pallet takes under the
  -- root that the client has committed to.
  arguments_verify :
      (chunks : List (List ℕ)) (index total root : ℕ) (tree : T) (chunk proof : List ℕ)
      → build_merkle_tree k trees chunks ≡ ready (root, tree)
      → counter_arguments k trees chunks index total ≡ ready (chunk, proof)
      → (index < total)
        × (k.verify_proof
              (blake2b_hasher k)
              proof
              root
              (index ∷ [])
              (k.blake2_256 chunk ∷ [])
              (length chunks)
            ≡ true)
  unfolding build_merkle_tree counter_arguments generate_inclusion_proof
  arguments_verify chunks index total root tree chunk proof built e =
      elim (Option-cases (get_elem? chunks index)) [
        | inl outside ↦ absurd (ground arith)
        | inr (target, at) ↦
            let the_tree = trees.from_leaves (merkle_hasher k) (leaf_hashes k chunks) in
            elim (Option-cases (trees.root the_tree)) [
              | inl rootless ↦ absurd (ground arith)
              | inr (r, rooted) ↦
                  let same_root : r ≡ root = ground arith in
                  let same_chunk : target ≡ chunk = ground arith in
                  let same_proof : trees.proof_hashes the_tree (index ∷ []) ≡ proof =
                    ground arith in
                  let verified =
                    complete.verifies (merkle_hasher k) (leaf_hashes k chunks) index
                      (k.blake2_256 target) r (leaf_hashes-get k chunks index target at) rooted in
                  (
                    ground arith,
                    rw
                        (
                          same_proof,
                          length-leaf_hashes k chunks,
                          same_root,
                          same_chunk,
                          merkle_hasher-eq-blake2b_hasher k,
                        )
                        at verified,
                  )
            ]
      ]

  -- A provider that committed to its chunks with the client (fewer than 2^32 of them) always wins a
  -- dispute: while the window is open, if its agent is active and the escrow can be released, the
  -- pallet accepts what the client submits for the disputed chunk, and records the claim as
  -- unsubstantiated.
  pub counter_dispute-honest :
      {W : Type 0} (cfg : Config W) (now who id : ℕ) (chunks : List (List ℕ)) (tree : T)
      (chunk proof : List ℕ) (m : VectorCommitment) (d : DisputeRecord) (w : W) (s : VectorDb W)
      → lookup id s.vector_commitments ≡ some m
      → m.status ≡ disputed
      → lookup id s.dispute_records ≡ some d
      → now ≤ d.counter_deadline
      → Acts cfg who m.provider s
      → cfg.escrow.release id s.world ≡ ok w
      → build_merkle_tree k trees chunks ≡ ready (m.merkle_root, tree)
      → m.total_chunks ≡ length chunks
      → length chunks < 4294967296
      → counter_arguments k trees chunks d.disputed_chunk_index m.total_chunks
        ≡ ready (chunk, proof)
      → (t : VectorDb W) × (counter_dispute cfg k now (signed who) id m.provider chunk proof s
          ≡ ok t)
        × (lookup id t.vector_commitments ≡ some (record m { status = dispute_resolved }))
        × (lookup id t.dispute_records
            ≡ some (record d { verdict = some claimant_unsubstantiated }))
  unfolding counter_dispute
  counter_dispute-honest cfg now who id chunks tree chunk proof m d w s found is recorded early acts
        paid built count small e =
      let (within, verified) =
        arguments_verify chunks d.disputed_chunk_index m.total_chunks m.merkle_root tree chunk proof
          built e in
      let fits : as_usize d.disputed_chunk_index ≡ d.disputed_chunk_index = omega arith in
      let fits_count : as_usize m.total_chunks ≡ length chunks = omega arith in
      let owner : cfg.agents.controller_of s.world m.provider ≡ some who = acts.controls in
      let able : cfg.agents.is_active_verified s.world m.provider ≡ true = acts.eligible in
      let proved : k.verify_proof (blake2b_hasher k) proof m.merkle_root
            (as_usize d.disputed_chunk_index ∷ []) (k.blake2_256 chunk ∷ [])
            (as_usize m.total_chunks)
          ≡ true =
        rw (fits, fits_count) verified in
      elim (Result-cases (counter_dispute cfg k now (signed who) id m.provider chunk proof s)) [
        | inl (x, failed) ↦ absurd (ground arith)
        | inr (t, done) ↦
            let (_, m', d', _, _, found', _, _, _, recorded', _, _, _, _, after) =
              counter_dispute-ok cfg k now (signed who) id m.provider chunk proof s t done in
            let same_m : m' ≡ m = ground arith in
            let same_d : d' ≡ d = ground arith in
            (
              t,
              done,
              rw (after, lookup-insert, ==_refl, same_m),
              rw (after, lookup-insert, ==_refl, same_d),
            )
      ]
