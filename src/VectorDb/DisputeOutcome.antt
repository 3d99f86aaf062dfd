-- ===== src/VectorDb/DisputeOutcome.antt =====
-- What a successful call of pallets/pallet-vector-db/src/lib.rs has checked and what it leaves
-- behind: the dispute calls and the expiry.
use arthneura_core.Base.{
  ℕ, ◌-◌, ◌≤◌, ◌<◌, ◌≡◌, refl, inl, inr, true, some, none, ◌||◌, List, [], ◌∷◌, arith,
  saturating_add, Option-cases,
}
use arthneura_core.Base.Map.{lookup, insert, remove}
use arthneura_core.Frame.{Origin, signed, root, unsigned, ok, Result-cases}
use arthneura_core.VectorDb.Outcome.{Acts}
use arthneura_core.VectorDb.{
  VectorCommitment, DisputeRecord, VectorDb, Config, Hashing, disputed, dispute_resolved,
  is_pending, is_active, is_disputed, claimant_unsubstantiated, provider_guilty, blake2b_hasher,
  as_usize, dispute_raised, dispute_countered, dispute_finalized, commitment_expired,
  effective_dispute_window, raise_dispute, counter_dispute, finalize_dispute, expire_commitment,
}

-- The record of a dispute when it is raised.
abbrev pub new_dispute : ℕ → ℕ → ℕ → ℕ → ℕ → ℕ → DisputeRecord
new_dispute id merkle_root received_chunk_hash disputed_chunk_index raised_at counter_deadline =
    record {
      commitment_id = id;
      merkle_root = merkle_root;
      received_chunk_hash = received_chunk_hash;
      disputed_chunk_index = disputed_chunk_index;
      raised_at = raised_at;
      counter_deadline = counter_deadline;
      verdict = none;
    }

module _ {W : Type 0} (cfg : Config W) where
  pub raise_dispute-ok :
      (now : ℕ) (origin : Origin) (id consumer index received chunk_count : ℕ) (s t : VectorDb W)
      → raise_dispute cfg now origin id consumer index received chunk_count s ≡ ok t
      → (who : ℕ) × (m : VectorCommitment) × (origin ≡ signed who)
        × (lookup id s.vector_commitments ≡ some m)
        × (is_active m.status ≡ true)
        × (now < m.expires_at)
        × (m.consumer ≡ consumer)
        × Acts cfg who consumer s
        × (lookup id s.dispute_records ≡ none)
        × (index < m.total_chunks)
        × (t ≡ record s {
          dispute_records =
              insert id
                (new_dispute id m.merkle_root received index now
                  (saturating_add now (effective_dispute_window cfg s)))
                s.dispute_records;
          vector_commitments = insert id (record m { status = disputed }) s.vector_commitments;
          events =
              dispute_raised id m.merkle_root index received
                (saturating_add now (effective_dispute_window cfg s))
              ∷ s.events;
        })
  unfolding raise_dispute
  raise_dispute-ok now root id consumer index received chunk_count s t e = absurd (cc)
  raise_dispute-ok now unsigned id consumer index received chunk_count s t e = absurd (cc)
  raise_dispute-ok now (signed who) id consumer index received chunk_count s t e =
      elim (Option-cases (lookup id s.vector_commitments)) [
        | inl missing ↦ absurd (ground arith)
        | inr (m, found) ↦ (
          who,
          m,
          refl,
          found,
          ground arith,
          ground arith,
          ground arith,
          ground arith,
          ground arith,
          ground arith,
          ground arith,
        )
      ]

  pub counter_dispute-ok :
      (k : Hashing) (now : ℕ) (origin : Origin) (id provider : ℕ) (chunk proof : List ℕ)
      (s t : VectorDb W)
      → counter_dispute cfg k now origin id provider chunk proof s ≡ ok t
      → (who : ℕ) × (m : VectorCommitment) × (d : DisputeRecord) × (w : W) × (origin ≡ signed who)
        × (lookup id s.vector_commitments ≡ some m)
        × (is_disputed m.status ≡ true)
        × (m.provider ≡ provider)
        × Acts cfg who provider s
        × (lookup id s.dispute_records ≡ some d)
        × (now ≤ d.counter_deadline)
        × (d.disputed_chunk_index < m.total_chunks)
        × (k.verify_proof
              (blake2b_hasher k)
              proof
              m.merkle_root
              (as_usize d.disputed_chunk_index ∷ [])
              (k.blake2_256 chunk ∷ [])
              (as_usize m.total_chunks)
            ≡ true)
        × (cfg.escrow.release id s.world ≡ ok w)
        × (t ≡ record s {
          dispute_records =
              insert id (record d { verdict = some claimant_unsubstantiated }) s.dispute_records;
          vector_commitments =
              insert id (record m { status = dispute_resolved }) s.vector_commitments;
          active_commitment_count = s.active_commitment_count - 1;
          world = cfg.reputation.penalize_false_disputer m.consumer w;
          events = dispute_countered id claimant_unsubstantiated ∷ s.events;
        })
  unfolding counter_dispute
  counter_dispute-ok k now root id provider chunk proof s t e = absurd (cc)
  counter_dispute-ok k now unsigned id provider chunk proof s t e = absurd (cc)
  counter_dispute-ok k now (signed who) id provider chunk proof s t e =
      elim (Option-cases (lookup id s.vector_commitments)) [
        | inl missing ↦ absurd (ground arith)
        | inr (m, found) ↦ elim (Option-cases (lookup id s.dispute_records)) [
          | inl unrecorded ↦ absurd (ground arith)
          | inr (d, recorded) ↦ elim (Result-cases (cfg.escrow.release id s.world)) [
            | inl (x, refused) ↦ absurd (ground arith)
            | inr (w, paid) ↦ (
              who,
              m,
              d,
              w,
              refl,
              found,
              ground arith,
              ground arith,
              ground arith,
              recorded,
              ground arith,
              ground arith,
              ground arith,
              paid,
              ground arith,
            )
          ]
        ]
      ]

  pub finalize_dispute-ok :
      (now : ℕ) (origin : Origin) (id : ℕ) (s t : VectorDb W)
      → finalize_dispute cfg now origin id s ≡ ok t
      → (m : VectorCommitment) × (d : DisputeRecord) × (w : W) × (lookup id s.vector_commitments
          ≡ some m)
        × (is_disputed m.status ≡ true)
        × (lookup id s.dispute_records ≡ some d)
        × (d.counter_deadline < now)
        × (cfg.escrow.refund id s.world ≡ ok w)
        × (t ≡ record s {
          dispute_records =
              insert id (record d { verdict = some provider_guilty }) s.dispute_records;
          vector_commitments =
              insert id (record m { status = dispute_resolved }) s.vector_commitments;
          active_commitment_count = s.active_commitment_count - 1;
          world = cfg.reputation.penalize_provider m.provider w;
          events = dispute_finalized id provider_guilty m.provider m.consumer ∷ s.events;
        })
  unfolding finalize_dispute
  finalize_dispute-ok now root id s t e = absurd (cc)
  finalize_dispute-ok now unsigned id s t e = absurd (cc)
  finalize_dispute-ok now (signed who) id s t e =
      elim (Option-cases (lookup id s.vector_commitments)) [
        | inl missing ↦ absurd (ground arith)
        | inr (m, found) ↦ elim (Option-cases (lookup id s.dispute_records)) [
          | inl unrecorded ↦ absurd (ground arith)
          | inr (d, recorded) ↦ elim (Result-cases (cfg.escrow.refund id s.world)) [
            | inl (x, refused) ↦ absurd (ground arith)
            | inr (w, paid) ↦
                (m, d, w, found, ground arith, recorded, ground arith, paid, ground arith)
          ]
        ]
      ]

  pub expire_commitment-ok :
      (now : ℕ) (origin : Origin) (id : ℕ) (s t : VectorDb W)
      → expire_commitment cfg now origin id s ≡ ok t
      → (m : VectorCommitment) × (lookup id s.vector_commitments ≡ some m)
        × ((is_pending m.status || is_active m.status) ≡ true)
        × (m.expires_at ≤ now)
        × (t ≡ record s {
          vector_commitments = remove id s.vector_commitments;
          active_commitment_count = s.active_commitment_count - 1;
          events = commitment_expired id ∷ s.events;
        })
  unfolding expire_commitment
  expire_commitment-ok now root id s t e = absurd (cc)
  expire_commitment-ok now unsigned id s t e = absurd (cc)
  expire_commitment-ok now (signed who) id s t e =
      elim (Option-cases (lookup id s.vector_commitments)) [
        | inl missing ↦ absurd (ground arith)
        | inr (m, found) ↦ (m, found, ground arith, ground arith, ground arith)
      ]
