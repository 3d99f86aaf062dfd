-- ===== src/VectorDb/Lifecycle.antt =====
-- The life of a commitment in pallets/pallet-vector-db/src/lib.rs: the edges that a call may follow,
-- the terms that never change, and the end states that nothing leaves.
use arthneura_core.Base.{
  ℕ, Bool, ◌≡◌, refl, inl, inr, true, false, ◌||◌, Option, none, some, List, [], ◌∷◌, arith, ◌==◌,
  Bool-cases,
}
use arthneura_core.Base.Map.{Map, lookup, insert, lookup-insert, lookup-remove}
use arthneura_core.Frame.{committed, committed_cases}
use arthneura_core.VectorDb.{
  VectorCommitment, CommitmentStatus, VectorDb, Config, Hashing, pending, active, settled, disputed,
  dispute_resolved, expired, is_pending, is_active, commitment_id_of,
}
use arthneura_core.VectorDb.Outcome.{
  register_commitment-ok, acknowledge_commitment-ok, close_commitment-ok,
}
use arthneura_core.VectorDb.DisputeOutcome.{
  raise_dispute-ok, counter_dispute-ok, finalize_dispute-ok, expire_commitment-ok,
}
use arthneura_core.VectorDb.Invariant.{is_pending-eq, is_active-eq, is_disputed-eq}
use arthneura_core.VectorDb.Calls.{
  Call, Step, calls, registers, acknowledges, closes, raises, counters, finalizes, expires,
  elsewhere, call, run,
}

infix 40 ◌⟶◌
pub data ◌⟶◌ : CommitmentStatus → CommitmentStatus → Type 0 where
  acknowledged : pending ⟶ active
  closed : active ⟶ settled
  raised : active ⟶ disputed
  resolved : disputed ⟶ dispute_resolved

-- The terms of a deal.
pub record SameTerms (m m' : VectorCommitment) : Type 0 where
  pub commitment_id : m'.commitment_id ≡ m.commitment_id
  pub provider : m'.provider ≡ m.provider
  pub consumer : m'.consumer ≡ m.consumer
  pub merkle_root : m'.merkle_root ≡ m.merkle_root
  pub total_chunks : m'.total_chunks ≡ m.total_chunks
  pub metadata : m'.metadata ≡ m.metadata
  pub created_at : m'.created_at ≡ m.created_at
  pub expires_at : m'.expires_at ≡ m.expires_at
  pub price : m'.price ≡ m.price

-- What one call may do to a stored commitment: nothing, one edge of the diagram with the terms
-- kept, or removal while it is pending or active.
pub data Fate (m : VectorCommitment) (o : Option VectorCommitment) : Type 0 where
  kept : o ≡ some m → Fate m o
  moved : (m' : VectorCommitment) → o ≡ some m' → m.status ⟶ m'.status → SameTerms m m' → Fate m o
  dropped : o ≡ none → (is_pending m.status || is_active m.status) ≡ true → Fate m o

-- A write to a stored commitment along an edge.
insert-Fate :
    (id j : ℕ) (m n n' : VectorCommitment) (ms : Map VectorCommitment)
    → lookup id ms ≡ some m
    → lookup j ms ≡ some n
    → n.status ⟶ n'.status
    → SameTerms n n'
    → Fate m (lookup id (insert j n' ms))
insert-Fate id j m n n' ms mine found edge terms = elim (Bool-cases (j == id)) [
  | inl hit ↦
      let same : n ≡ m = ground arith in
      moved n' (rw (lookup-insert, hit)) (rw same at edge) (rw same at terms)
  | inr miss ↦ kept (rw (lookup-insert, miss) mine)
]

terms_kept :
    (m : VectorCommitment) (st : CommitmentStatus) (at : Option ℕ)
    → SameTerms m (record m { status = st; acknowledged_at = at })
terms_kept m st at = record {
  commitment_id = refl;
  provider = refl;
  consumer = refl;
  merkle_root = refl;
  total_chunks = refl;
  metadata = refl;
  created_at = refl;
  expires_at = refl;
  price = refl;
}

-- A settled commitment or a resolved dispute.
abbrev pub is_terminal : CommitmentStatus → Bool
is_terminal pending = false
is_terminal active = false
is_terminal settled = true
is_terminal disputed = false
is_terminal dispute_resolved = true
is_terminal expired = false

-- No edge leaves a terminal status.
no_way_out : {st st' : CommitmentStatus} → is_terminal st ≡ true → st ⟶ st' → ⊥
no_way_out h acknowledged = cc
no_way_out h closed = cc
no_way_out h raised = cc
no_way_out h resolved = cc

not_early :
    (st : CommitmentStatus) → is_terminal st ≡ true → (is_pending st || is_active st) ≡ false
not_early pending h = cc
not_early active h = cc
not_early settled h = refl
not_early disputed h = cc
not_early dispute_resolved h = refl
not_early expired h = cc

module _ {W : Type 0} (cfg : Config W) (k : Hashing) where
  -- Whatever is called, a stored commitment either stays as it is, moves along one edge of the
  -- diagram `Pending ⟶ Active ⟶ Settled`, `Active ⟶ Disputed ⟶ DisputeResolved` with its id, parties,
  -- root, chunk count, metadata, blocks and price unchanged, or is removed while pending or active.
  pub call-Fate :
      (x : Call) (id : ℕ) (m : VectorCommitment) (s : VectorDb W)
      → lookup id s.vector_commitments ≡ some m
      → Fate m (lookup id (committed s (call cfg k x s)).vector_commitments)
  unfolding call
  call-Fate (registers now o provider consumer root chunks metadata expires_in price) id m s mine =
      committed_cases (λ t. Fate m (lookup id t.vector_commitments)) s _ (kept mine)
        λ t e.
          let (_, _, _, _, _, _, _, _, _, fresh, done) =
            register_commitment-ok cfg k now o provider consumer root chunks metadata expires_in
              price s t e in
          elim (Bool-cases (commitment_id_of k provider consumer root now == id)) [
            | inl hit ↦ absurd (ground arith)
            | inr miss ↦ rw done (kept (rw (lookup-insert, miss) mine))
          ]
  call-Fate (acknowledges now o j consumer) id m s mine =
      committed_cases (λ t. Fate m (lookup id t.vector_commitments)) s _ (kept mine)
        λ t e.
          let (_, n, _, _, _, found, is, _, _, _, _, _, done) =
            acknowledge_commitment-ok cfg now o j consumer s t e in
          rw done (
            insert-Fate id j m n _ s.vector_commitments mine found
              (rw (is_pending-eq n.status is) acknowledged) (terms_kept n _ _))
  call-Fate (closes now o j consumer stream_hash chunks) id m s mine =
      committed_cases (λ t. Fate m (lookup id t.vector_commitments)) s _ (kept mine)
        λ t e.
          let (_, n, _, _, found, is, _, _, _, same, _, done) =
            close_commitment-ok cfg now o j consumer stream_hash chunks s t e in
          rw done (
            insert-Fate id j m n _ s.vector_commitments mine found
              (rw (is_active-eq n.status is) closed) (terms_kept n _ _))
  call-Fate (raises now o j consumer index received chunks) id m s mine =
      committed_cases (λ t. Fate m (lookup id t.vector_commitments)) s _ (kept mine)
        λ t e.
          let (_, n, _, found, is, _, _, _, _, within, done) =
            raise_dispute-ok cfg now o j consumer index received chunks s t e in
          rw done (
            insert-Fate id j m n _ s.vector_commitments mine found
              (rw (is_active-eq n.status is) raised) (terms_kept n _ _))
  call-Fate (counters now o j provider chunk proof) id m s mine =
      committed_cases (λ t. Fate m (lookup id t.vector_commitments)) s _ (kept mine)
        λ t e.
          let (_, n, d, _, _, found, is, _, _, recorded, _, _, _, _, done) =
            counter_dispute-ok cfg k now o j provider chunk proof s t e in
          rw done (
            insert-Fate id j m n _ s.vector_commitments mine found
              (rw (is_disputed-eq n.status is) resolved) (terms_kept n _ _))
  call-Fate (finalizes now o j) id m s mine =
      committed_cases (λ t. Fate m (lookup id t.vector_commitments)) s _ (kept mine)
        λ t e.
          let (n, d, _, found, is, recorded, _, _, done) = finalize_dispute-ok cfg now o j s t e in
          rw done (
            insert-Fate id j m n _ s.vector_commitments mine found
              (rw (is_disputed-eq n.status is) resolved) (terms_kept n _ _))
  call-Fate (expires now o j) id m s mine =
      committed_cases (λ t. Fate m (lookup id t.vector_commitments)) s _ (kept mine)
        λ t e.
          let (n, found, is, _, done) = expire_commitment-ok cfg now o j s t e in
          elim (Bool-cases (j == id)) [
            | inl hit ↦ rw done (dropped (rw (lookup-remove, hit)) (ground arith))
            | inr miss ↦ rw done (kept (rw (lookup-remove, miss) mine))
          ]

  pub terminal_stays :
      (m : VectorCommitment) (o : Option VectorCommitment)
      → is_terminal m.status ≡ true
      → Fate m o
      → o ≡ some m
  terminal_stays m o h (kept e) = e
  terminal_stays m o h (moved m' e edge same) = absurd (no_way_out h edge)
  terminal_stays m o h (dropped e early) = absurd (let late = not_early m.status h in cc)

  -- A settled commitment and a resolved one are final: over any history of calls, and whatever the
  -- rest of the runtime does, the record stays exactly as it is.
  pub run_terminal :
      (xs : List (Step W)) (id : ℕ) (m : VectorCommitment) (s : VectorDb W)
      → lookup id s.vector_commitments ≡ some m
      → is_terminal m.status ≡ true
      → lookup id (run cfg k xs s).vector_commitments ≡ some m
  unfolding run
  run_terminal [] id m s mine end = mine
  run_terminal (elsewhere f ∷ xs) id m s mine end =
      run_terminal xs id m (record s { world = f s.world }) mine end
  run_terminal (calls x ∷ xs) id m s mine end =
      run_terminal xs id m (committed s (call cfg k x s))
        (terminal_stays m _ end (call-Fate x id m s mine)) end
