-- ===== src/VectorDb/Disputes.antt =====
-- The dispute protocol of pallets/pallet-vector-db/src/lib.rs: who wins at which block, and which errors
-- never occur.
use arthneura_core.Base.{
  ℕ, ◌-◌, ◌<◌, ◌≡◌, ◌≢◌, inl, inr, none, some, List, ◌∷◌, arith, Bool-cases, Option-cases,
}
use mathlib.Core.Logic.{◌↔◌}
use arthneura_core.Base.Map.{lookup, insert, lookup-insert}
use arthneura_core.Errors.{
  not_disputed, dispute_window_still_open, dispute_already_raised, chunk_index_out_of_bounds,
}
use arthneura_core.Frame.{Origin, signed, ok, err, vector_db}
use arthneura_core.VectorDb.{
  VectorCommitment, DisputeRecord, VectorDb, Config, Hashing, active, disputed, dispute_resolved,
  is_active, is_disputed, raise_dispute, counter_dispute, finalize_dispute, provider_guilty,
  dispute_finalized,
}
use arthneura_core.VectorDb.DisputeOutcome.{counter_dispute-ok, finalize_dispute-ok}
use arthneura_core.VectorDb.Invariant.{IsValid, fits_at, is_active-eq, is_disputed-eq}

module _ {W : Type 0} (cfg : Config W) where
  -- The storage after a guilty verdict.
  abbrev pub finalized : ℕ → VectorCommitment → DisputeRecord → W → VectorDb W → VectorDb W
  finalized id m d w s = record s {
    dispute_records = insert id (record d { verdict = some provider_guilty }) s.dispute_records;
    vector_commitments = insert id (record m { status = dispute_resolved }) s.vector_commitments;
    active_commitment_count = s.active_commitment_count - 1;
    world = cfg.reputation.penalize_provider m.provider w;
    events = dispute_finalized id provider_guilty m.provider m.consumer ∷ s.events;
  }

  -- Of a disputed commitment there is an undecided dispute record, and anybody can finalize the
  -- dispute exactly when its deadline has passed and the escrow grants the refund; the commitment is
  -- then resolved, the verdict is against the provider, who is penalized after the refund.
  pub finalize_dispute_iff :
      (now who id : ℕ) (m : VectorCommitment) (s : VectorDb W)
      → IsValid s
      → lookup id s.vector_commitments ≡ some m
      → m.status ≡ disputed
      → (d : DisputeRecord) × (lookup id s.dispute_records ≡ some d)
        × (d.verdict ≡ none)
        × (((t : VectorDb W) × (finalize_dispute cfg now (signed who) id s ≡ ok t))
            ↔ ((d.counter_deadline < now) × ((w : W) × (cfg.escrow.refund id s.world ≡ ok w))))
        × ((w : W)
            → d.counter_deadline < now
            → cfg.escrow.refund id s.world ≡ ok w
            → finalize_dispute cfg now (signed who) id s ≡ ok (finalized id m d w s))
  unfolding finalize_dispute
  finalize_dispute_iff now who id m s v found is =
      let at = fits_at id m _ _ _ _ disputed v found is in
      let (d, recorded, undecided, _, _) = at.1.1 in
      let succeeds =
        λ (w : W) (late : d.counter_deadline < now) (paid : cfg.escrow.refund id s.world ≡ ok w).
          let done : finalize_dispute cfg now (signed who) id s ≡ ok (finalized id m d w s) =
            ground arith in
          done in
      (
        d,
        recorded,
        undecided,
        (
          λ r.
              let (t, e) = r in
              let (_, d', w, _, _, recorded', late, paid, _) =
                finalize_dispute-ok cfg now (signed who) id s t e in
              let same : d' ≡ d = ground arith in (rw same at late, (w, paid)),
          λ r. let (late, (w, paid)) = r in (finalized id m d w s, succeeds w late paid),
        ),
        succeeds,
      )

  -- A refutation and a guilty verdict exclude each other: where a refutation is accepted,
  -- finalizing fails at the same block because the window is open, and after it at every block
  -- because the dispute is over.
  counter-excludes-finalize :
      (k : Hashing) (now later who id provider : ℕ) (o : Origin) (chunk proof : List ℕ)
      (s t : VectorDb W)
      → counter_dispute cfg k now o id provider chunk proof s ≡ ok t
      → (finalize_dispute cfg now (signed who) id s ≡ err (vector_db dispute_window_still_open))
        × (finalize_dispute cfg later (signed who) id t ≡ err (vector_db not_disputed))
  unfolding finalize_dispute
  counter-excludes-finalize k now later who id provider o chunk proof s t e =
      let (_, m, d, _, _, found, is, _, _, recorded, early, _, _, _, done) =
        counter_dispute-ok cfg k now o id provider chunk proof s t e in
      (
        ground arith,
        rw done (
            ground (
              arith,
              lookup-insert id id (record m { status = dispute_resolved }) s.vector_commitments,
            )),
      )

  -- In a valid state, and where the escrow does not itself return that error, `counter_dispute` never
  -- fails with `ChunkIndexOutOfBounds`.
  counter_dispute-in_bounds :
      (k : Hashing) (now id provider : ℕ) (o : Origin) (chunk proof : List ℕ) (s : VectorDb W)
      → IsValid s
      → cfg.escrow.release id s.world ≢ err (vector_db chunk_index_out_of_bounds)
      → counter_dispute cfg k now o id provider chunk proof s
        ≢ err (vector_db chunk_index_out_of_bounds)
  unfolding counter_dispute
  counter_dispute-in_bounds k now id provider o chunk proof s v other e =
      elim (Option-cases (lookup id s.vector_commitments)) [
        | inl missing ↦ ground arith
        | inr (m, found) ↦ elim (Bool-cases (is_disputed m.status)) [
          | inl is ↦
              let at = fits_at id m _ _ _ _ disputed v found (is_disputed-eq m.status is) in
              let (d, recorded, _, within, _) = at.1.1 in ground arith
          | inr isnt ↦ ground arith
        ]
      ]

  -- In a valid state `raise_dispute` never fails with `DisputeAlreadyRaised`.
  raise_dispute-not_raised :
      (now id consumer index received chunks : ℕ) (o : Origin) (s : VectorDb W)
      → IsValid s
      → raise_dispute cfg now o id consumer index received chunks s
        ≢ err (vector_db dispute_already_raised)
  unfolding raise_dispute
  raise_dispute-not_raised now id consumer index received chunks o s v e =
      elim (Option-cases (lookup id s.vector_commitments)) [
        | inl missing ↦ ground arith
        | inr (m, found) ↦ elim (Bool-cases (is_active m.status)) [
          | inl is ↦
              let at = fits_at id m _ _ _ _ active v found (is_active-eq m.status is) in
              let unrecorded = at.1.0 in ground arith
          | inr isnt ↦ ground arith
        ]
      ]

  -- In a valid state two errors never occur: `counter_dispute` does not fail with `ChunkIndexOutOfBounds`,
  -- where the escrow does not itself return that error, and `raise_dispute` does not fail with
  -- `DisputeAlreadyRaised`.
  pub unreachable_errors :
      (k : Hashing) (now id provider consumer index received chunks : ℕ) (o : Origin)
      (chunk proof : List ℕ) (s : VectorDb W)
      → IsValid s
      → cfg.escrow.release id s.world ≢ err (vector_db chunk_index_out_of_bounds)
      → (counter_dispute cfg k now o id provider chunk proof s
          ≢ err (vector_db chunk_index_out_of_bounds))
        × (raise_dispute cfg now o id consumer index received chunks s
            ≢ err (vector_db dispute_already_raised))
  unreachable_errors k now id provider consumer index received chunks o chunk proof s v other = (
    counter_dispute-in_bounds k now id provider o chunk proof s v other,
    raise_dispute-not_raised now id consumer index received chunks o s v,
  )
