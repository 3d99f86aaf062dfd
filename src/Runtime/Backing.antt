-- ===== src/Runtime/Backing.antt =====
-- Commitments and the funds behind them across the pallets of runtime/src: every commitment that is
-- active or disputed has a locked escrow of its price, so a dispute can always be ended.
use arthneura_core.Base.{
  ℕ, Bool, ◌<◌, ◌≡◌, refl, inl, inr, true, false, ◌||◌, some, List, [], ◌∷◌, arith, ◌==◌, ==_refl,
  Bool-cases,
}
use arthneura_core.Base.Map.{Map, lookup, insert, remove, lookup-insert, lookup-remove}
use arthneura_core.Frame.{signed, ok, committed, committed_cases}
use arthneura_core.Currency.{Currency}
use arthneura_core.Escrow.{EscrowRecord, refunded, is_locked}
use arthneura_core.Escrow.Outcome.{new_record}
use arthneura_core.Escrow.Solvency.{refunded_state}
use arthneura_core.AgentRegistry.{Crypto}
use arthneura_core.VectorDb.{
  VectorCommitment, DisputeRecord, VectorDb, Hashing, disputed, dispute_resolved, is_active,
  is_disputed, finalize_dispute,
}
use arthneura_core.VectorDb.Outcome.{
  register_commitment-ok, acknowledge_commitment-ok, close_commitment-ok,
}
use arthneura_core.VectorDb.DisputeOutcome.{
  raise_dispute-ok, counter_dispute-ok, finalize_dispute-ok, expire_commitment-ok,
}
use arthneura_core.VectorDb.Invariant.{IsValid}
use arthneura_core.VectorDb.Disputes.{finalize_dispute_iff, finalized}
use arthneura_core.VectorDb.Calls.{
  Call, registers, acknowledges, closes, raises, counters, finalizes, expires,
}
use arthneura_core.VectorDb.Calls
use arthneura_core.Runtime.{World, vector_db_config, with_escrow, escrow_part}
use arthneura_core.Runtime.Adapters.{
  lock-escrows, release-escrows, refund-escrows, refund-succeeds, penalize_provider-escrows,
  penalize_false_disputer-escrows,
}
use arthneura_core.Runtime.History.{Extrinsic, trade, agent, step, run}

-- `Active` or `Disputed`: the price has been taken and not yet settled.
abbrev pub is_engaged : VectorCommitment → Bool
is_engaged m = is_active m.status || is_disputed m.status

-- The escrow under `id` is locked and holds the price of `m`.
abbrev pub Holds : ℕ → VectorCommitment → Map EscrowRecord → Type 0
Holds id m escrows =
    (r : EscrowRecord) × (lookup id escrows ≡ some r)
    × (is_locked r.status ≡ true)
    × (r.amount ≡ m.price)

abbrev pub IsBacked : Map VectorCommitment → Map EscrowRecord → Type 0
IsBacked ms escrows =
    (id : ℕ) (m : VectorCommitment)
    → lookup id ms ≡ some m
    → is_engaged m ≡ true
    → Holds id m escrows

module _ (ms : Map VectorCommitment) (es : Map EscrowRecord) (v : IsBacked ms es) where
  -- A commitment written under `id`, and perhaps the escrow of that id.
  write-IsBacked :
      (id : ℕ) (m : VectorCommitment) (es' : Map EscrowRecord)
      → (is_engaged m ≡ true → Holds id m es')
      → ((j : ℕ) → (id == j) ≡ false → lookup j es' ≡ lookup j es)
      → IsBacked (insert id m ms) es'
  write-IsBacked id m es' here there j n found engaged = elim (Bool-cases (id == j)) [
    | inl hit ↦
        let same : m ≡ n = ground (arith, lookup-insert j id m ms) in
        let at : id ≡ j = ground arith in rw (← same, ← at) (here (rw same engaged))
    | inr miss ↦ rw (there j miss) (v j n (ground (arith, lookup-insert j id m ms)) engaged)
  ]

  remove-IsBacked : (id : ℕ) → IsBacked (remove id ms) es
  remove-IsBacked id j n found engaged = v j n (ground (arith, lookup-remove j id ms)) engaged

-- A runtime in which every engaged commitment is backed.
abbrev pub Backed : {B : Type 0} → VectorDb (World B) → Type 0
Backed s = IsBacked s.vector_commitments s.world.escrows

module _ {B : Type 0} (c : Currency B) (k : Hashing) where
  call-Backed :
      (x : Call) (s : VectorDb (World B))
      → Backed s
      → Backed (committed s (Calls.call (vector_db_config c) k x s))
  unfolding Calls.call
  call-Backed (registers now o provider consumer root chunks metadata expires_in price) s v =
      committed_cases Backed s _ v λ t e.
        let (_, _, _, _, _, _, _, _, _, fresh, done) =
          register_commitment-ok (vector_db_config c) k now o provider consumer root chunks metadata
            expires_in price s t e in
        rw done (write-IsBacked _ _ v _ _ _ (λ h. absurd (cc)) (λ j miss. refl))
  call-Backed (acknowledges now o id consumer) s v = committed_cases Backed s _ v λ t e.
      let (who, m, payee, w, _, found, is, _, _, _, _, held, done) =
        acknowledge_commitment-ok (vector_db_config c) now o id consumer s t e in
      let (_, es) = lock-escrows c now id who payee m.price s.world w held in
      rw (done, es)
        (write-IsBacked _ _ v id _ _
          (λ h. (new_record now who payee m.price, rw (lookup-insert, ==_refl), refl, refl))
          (λ j miss. rw (lookup-insert, miss)))
  call-Backed (closes now o id consumer stream_hash chunks) s v =
      committed_cases Backed s _ v λ t e.
        let (_, m, w, _, found, is, _, _, _, same, paid, done) =
          close_commitment-ok (vector_db_config c) now o id consumer stream_hash chunks s t e in
        let (_, _, _, es) = release-escrows c id s.world w paid in
        rw (done, es)
          (write-IsBacked _ _ v id _ _ (λ h. absurd (cc)) (λ j miss. rw (lookup-insert, miss)))
  call-Backed (raises now o id consumer index received chunks) s v =
      committed_cases Backed s _ v λ t e.
        let (_, m, _, found, is, _, _, _, _, _, done) =
          raise_dispute-ok (vector_db_config c) now o id consumer index received chunks s t e in
        rw done (write-IsBacked _ _ v id _ _ (λ h. v id m found (rw is)) (λ j miss. refl))
  call-Backed (counters now o id provider chunk proof) s v = committed_cases Backed s _ v λ t e.
      let (_, m, d, w, _, found, is, _, _, recorded, _, _, _, paid, done) =
        counter_dispute-ok (vector_db_config c) k now o id provider chunk proof s t e in
      let (_, _, _, es) = release-escrows c id s.world w paid in
      rw (done, penalize_false_disputer-escrows c m.consumer w, es)
        (write-IsBacked _ _ v id _ _ (λ h. absurd (cc)) (λ j miss. rw (lookup-insert, miss)))
  call-Backed (finalizes now o id) s v = committed_cases Backed s _ v λ t e.
      let (m, d, w, found, is, recorded, _, paid, done) =
        finalize_dispute-ok (vector_db_config c) now o id s t e in
      let (_, _, _, es) = refund-escrows c id s.world w paid in
      rw (done, penalize_provider-escrows c m.provider w, es)
        (write-IsBacked _ _ v id _ _ (λ h. absurd (cc)) (λ j miss. rw (lookup-insert, miss)))
  call-Backed (expires now o id) s v = committed_cases Backed s _ v λ t e.
      let (m, found, _, _, done) = expire_commitment-ok (vector_db_config c) now o id s t e in
      rw done (remove-IsBacked _ _ v id)

  -- Any account can end a dispute whose deadline has passed: of a valid and backed runtime the call
  -- cannot fail, the escrow of the full price is refunded, and the commitment is resolved.
  pub finalize_dispute-succeeds :
      (now who id : ℕ) (m : VectorCommitment) (d : DisputeRecord) (s : VectorDb (World B))
      → IsValid s
      → Backed s
      → lookup id s.vector_commitments ≡ some m
      → m.status ≡ disputed
      → lookup id s.dispute_records ≡ some d
      → d.counter_deadline < now
      → (t : VectorDb (World B)) × (r : EscrowRecord) × (finalize_dispute
            (vector_db_config c)
            now
            (signed who)
            id
            s
          ≡ ok t)
        × (lookup id t.vector_commitments ≡ some (record m { status = dispute_resolved }))
        × (r.amount ≡ m.price)
        × (lookup id s.world.escrows ≡ some r)
        × (lookup id t.world.escrows ≡ some (record r { status = refunded }))
  finalize_dispute-succeeds now who id m d s v b found is recorded late =
      let (d', recorded', _, _, succeeds) =
        finalize_dispute_iff (vector_db_config c) now who id m s v found is in
      let same : d' ≡ d = ground arith in
      let (r, held, locked, price) = b id m found (rw is) in
      let w : World B = with_escrow s.world (refunded_state c id r (escrow_part s.world)) in
      (
        finalized (vector_db_config c) id m d' w s,
        r,
        succeeds w (rw same late) (refund-succeeds c id r s.world held locked),
        rw (lookup-insert, ==_refl),
        price,
        held,
        rw (penalize_provider-escrows c m.provider w, lookup-insert, ==_refl),
      )

module _ {B : Type 0} (c : Currency B) (crypto : Crypto) (k : Hashing) where
  -- A runtime in which every active or disputed commitment has a locked escrow of exactly its price
  -- stays so over any history of extrinsics of the trade pallet and calls of the registry.
  pub run-Backed :
      (xs : List Extrinsic) (s : VectorDb (World B)) → Backed s → Backed (run c crypto k xs s)
  unfolding run step
  run-Backed [] s v = v
  run-Backed (trade x ∷ xs) s v =
      run-Backed xs (step c crypto k (trade x) s) (call-Backed c k x s v)
  run-Backed (agent x ∷ xs) s v = run-Backed xs (step c crypto k (agent x) s) v
