-- ===== src/VectorDb/Binding.antt =====
-- What a refutation in pallets/pallet-vector-db/src/lib.rs has to do with the dispute that it answers,
-- however much happens between `raise_dispute` and `counter_dispute`.
use arthneura_core.Base.{
  ℕ, Bool, ltb, ◌<◌, ◌^◌, ◌≤◌, ◌≡◌, refl, ap, ◌∙◌, ◌⊎◌, inl, inr, true, some, List, [], ◌∷◌, arith,
  ◌==◌, ==_refl, Bool-cases, saturating_add,
}
use arthneura_core.Base.Map.{lookup, lookup-insert, lookup-remove}
use arthneura_core.Frame.{Origin, ok, committed, committed_cases}
use arthneura_core.VectorDb.{
  VectorCommitment, DisputeRecord, VectorDb, Config, Hashing, disputed, dispute_resolved,
  is_disputed, commitment_id_of, as_usize, blake2b_hasher, effective_dispute_window, raise_dispute,
  counter_dispute,
}
use arthneura_core.VectorDb.Outcome.{
  register_commitment-ok, acknowledge_commitment-ok, close_commitment-ok,
}
use arthneura_core.VectorDb.DisputeOutcome.{
  raise_dispute-ok, counter_dispute-ok, finalize_dispute-ok, expire_commitment-ok, new_dispute,
}
use arthneura_core.VectorDb.Invariant.{is_disputed-eq}
use arthneura_core.VectorDb.Lifecycle.{is_terminal, call-Fate, terminal_stays}
use arthneura_core.VectorDb.Calls.{
  Call, Step, calls, registers, acknowledges, closes, raises, counters, finalizes, expires,
  elsewhere, call, run,
}

final_not_disputed :
    (z n : VectorCommitment) → z ≡ n → is_terminal z.status ≡ true → is_disputed n.status ≡ true → ⊥
final_not_disputed z n same end is =
    let st = is_disputed-eq n.status is in
    let z_st : z.status ≡ disputed = ap (λ (y : VectorCommitment). y.status) same ∙ st in
    ground arith

-- Below `2 ^ 32` nothing is truncated.
exact :
    (index total : ℕ) (verifies : ℕ → ℕ → Bool)
    → index < total
    → verifies (as_usize index) (as_usize total) ≡ true
    → (2 ^ 32 ≤ total) ⊎ (verifies index total ≡ true)
exact index total verifies within shown = elim (Bool-cases (ltb total 4294967296)) [
  | inl small ↦
      let same_index : as_usize index ≡ index = ground arith in
      let same_total : as_usize total ≡ total = ground arith in
      inr (rw (same_index, same_total) at shown)
  | inr big ↦ inl (ground arith)
]

-- The dispute over `m` is still open, with its record `d`, or the commitment is final.
abbrev Pursued : {W : Type 0} → ℕ → VectorCommitment → DisputeRecord → VectorDb W → Type 0
Pursued id m d s =
    ((lookup id s.vector_commitments ≡ some m) × (lookup id s.dispute_records ≡ some d))
    ⊎ ((n : VectorCommitment) × (lookup id s.vector_commitments ≡ some n)
        × (is_terminal n.status ≡ true))

module _ {W : Type 0} (cfg : Config W) (k : Hashing) where
  call-Pursued :
      (x : Call) (id : ℕ) (m : VectorCommitment) (d : DisputeRecord) (s : VectorDb W)
      → m.status ≡ disputed
      → Pursued id m d s
      → Pursued id m d (committed s (call cfg k x s))
  unfolding call
  call-Pursued x id m d s is (inr (n, final, end)) =
      inr (n, terminal_stays cfg k n _ end (call-Fate cfg k x id n s final), end)
  call-Pursued (registers now o provider consumer root chunks metadata expires_in price) id m d s is
        (inl (mine, its)) =
      committed_cases (Pursued id m d) s _ (inl (mine, its)) λ t e.
        let (_, _, _, _, _, _, _, _, _, fresh, done) =
          register_commitment-ok cfg k now o provider consumer root chunks metadata expires_in price
            s t e in
        elim (Bool-cases (commitment_id_of k provider consumer root now == id)) [
          | inl hit ↦ absurd (ground arith)
          | inr miss ↦ rw done (inl (rw (lookup-insert, miss) mine, its))
        ]
  call-Pursued (acknowledges now o j consumer) id m d s is (inl (mine, its)) =
      committed_cases (Pursued id m d) s _ (inl (mine, its)) λ t e.
        let (_, n, _, _, _, found, early, _, _, _, _, _, done) =
          acknowledge_commitment-ok cfg now o j consumer s t e in
        elim (Bool-cases (j == id)) [
          | inl hit ↦ absurd (ground arith)
          | inr miss ↦ rw done (inl (rw (lookup-insert, miss) mine, its))
        ]
  call-Pursued (closes now o j consumer stream_hash chunks) id m d s is (inl (mine, its)) =
      committed_cases (Pursued id m d) s _ (inl (mine, its)) λ t e.
        let (_, n, _, _, found, early, _, _, _, same, _, done) =
          close_commitment-ok cfg now o j consumer stream_hash chunks s t e in
        elim (Bool-cases (j == id)) [
          | inl hit ↦ absurd (ground arith)
          | inr miss ↦ rw done (inl (rw (lookup-insert, miss) mine, its))
        ]
  call-Pursued (raises now o j consumer index received chunks) id m d s is (inl (mine, its)) =
      committed_cases (Pursued id m d) s _ (inl (mine, its)) λ t e.
        let (_, n, _, found, early, _, _, _, unrecorded, within, done) =
          raise_dispute-ok cfg now o j consumer index received chunks s t e in
        elim (Bool-cases (j == id)) [
          | inl hit ↦ absurd (ground arith)
          | inr miss ↦ rw done (inl (rw (lookup-insert, miss) mine, rw (lookup-insert, miss) its))
        ]
  call-Pursued (counters now o j provider chunk proof) id m d s is (inl (mine, its)) =
      committed_cases (Pursued id m d) s _ (inl (mine, its)) λ t e.
        let (_, n, _, _, _, found, _, _, _, recorded, _, _, _, _, done) =
          counter_dispute-ok cfg k now o j provider chunk proof s t e in
        elim (Bool-cases (j == id)) [
          | inl hit ↦
              rw done (inr (record n { status = dispute_resolved }, rw (lookup-insert, hit), refl))
          | inr miss ↦ rw done (inl (rw (lookup-insert, miss) mine, rw (lookup-insert, miss) its))
        ]
  call-Pursued (finalizes now o j) id m d s is (inl (mine, its)) =
      committed_cases (Pursued id m d) s _ (inl (mine, its)) λ t e.
        let (n, _, _, found, _, recorded, _, _, done) = finalize_dispute-ok cfg now o j s t e in
        elim (Bool-cases (j == id)) [
          | inl hit ↦
              rw done (inr (record n { status = dispute_resolved }, rw (lookup-insert, hit), refl))
          | inr miss ↦ rw done (inl (rw (lookup-insert, miss) mine, rw (lookup-insert, miss) its))
        ]
  call-Pursued (expires now o j) id m d s is (inl (mine, its)) =
      committed_cases (Pursued id m d) s _ (inl (mine, its)) λ t e.
        let (n, found, early, _, done) = expire_commitment-ok cfg now o j s t e in
        elim (Bool-cases (j == id)) [
          | inl hit ↦ absurd (ground arith)
          | inr miss ↦ rw done (inl (rw (lookup-remove, miss) mine, its))
        ]

  run-Pursued :
      (xs : List (Step W)) (id : ℕ) (m : VectorCommitment) (d : DisputeRecord) (s : VectorDb W)
      → m.status ≡ disputed
      → Pursued id m d s
      → Pursued id m d (run cfg k xs s)
  unfolding run
  run-Pursued [] id m d s is p = p
  run-Pursued (elsewhere f ∷ xs) id m d s is p =
      run-Pursued xs id m d (record s { world = f s.world }) is p
  run-Pursued (calls x ∷ xs) id m d s is p =
      run-Pursued xs id m d (committed s (call cfg k x s)) is (call-Pursued x id m d s is p)

  -- A dispute is raised over the chunk `index`; anything may happen then. If a refutation is accepted
  -- later, then within the dispute window counted from the block of the dispute, and the Merkle proof
  -- that was accepted is one under the committed root, for the disputed index and the number of chunks
  -- modulo `2 ^ 32`, to which the runtime truncates them: for that very index and number, unless there
  -- are `2 ^ 32` chunks or more.
  pub counter-raise :
      (now later : ℕ) (o o' : Origin) (id consumer index received chunks provider : ℕ)
      (chunk proof : List ℕ) (xs : List (Step W)) (m : VectorCommitment) (s t u : VectorDb W)
      → lookup id s.vector_commitments ≡ some m
      → raise_dispute cfg now o id consumer index received chunks s ≡ ok t
      → counter_dispute cfg k later o' id provider chunk proof (run cfg k xs t) ≡ ok u
      → (later ≤ saturating_add now (effective_dispute_window cfg s))
        × (k.verify_proof
              (blake2b_hasher k)
              proof
              m.merkle_root
              (as_usize index ∷ [])
              (k.blake2_256 chunk ∷ [])
              (as_usize m.total_chunks)
            ≡ true)
        × ((2 ^ 32 ≤ m.total_chunks)
            ⊎ (k.verify_proof
                  (blake2b_hasher k)
                  proof
                  m.merkle_root
                  (index ∷ [])
                  (k.blake2_256 chunk ∷ [])
                  m.total_chunks
                ≡ true))
  counter-raise now later o o' id consumer index received chunks provider chunk proof xs m s t u
        found e e' =
      let (_, m0, _, found0, _, _, _, _, _, within, done) =
        raise_dispute-ok cfg now o id consumer index received chunks s t e in
      let deadline = saturating_add now (effective_dispute_window cfg s) in
      let d0 : DisputeRecord = new_dispute id m0.merkle_root received index now deadline in
      let m1 : VectorCommitment = record m0 { status = disputed } in
      let raised_now : Pursued id m1 d0 t =
        rw done (inl (rw (lookup-insert, ==_refl), rw (lookup-insert, ==_refl))) in
      let (_, n, d, _, _, found', is, _, _, recorded, early, _, verified, _, _) =
        counter_dispute-ok cfg k later o' id provider chunk proof (run cfg k xs t) u e' in
      elim (run-Pursued xs id m1 d0 t refl raised_now) [
        | inl (mine, its) ↦
            let same_d : d ≡ d0 = ground arith in
            let same_n : n ≡ m1 = ground arith in
            let same_m : m0 ≡ m = ground arith in
            let shown : k.verify_proof (blake2b_hasher k) proof m.merkle_root (as_usize index ∷ [])
                  (k.blake2_256 chunk ∷ []) (as_usize m.total_chunks)
                ≡ true =
              rw (← same_m) (rw (same_d, same_n) at verified) in
            let inside : index < m.total_chunks = rw same_m at within in
            (
              rw same_d at early,
              shown,
              exact index m.total_chunks
                  (λ i n.
                    k.verify_proof (blake2b_hasher k) proof m.merkle_root (i ∷ [])
                      (k.blake2_256 chunk ∷ []) n)
                  (ground arith) shown,
            )
        | inr (z, final, end) ↦ absurd (final_not_disputed z n (ground arith) end is)
      ]
