-- ===== src/VectorDb/Preserved.antt =====
-- Every call of pallets/pallet-vector-db/src/lib.rs keeps the records of a commitment in line with
-- its status, and the counter with the open commitments.
use arthneura_core.Base.{
  ℕ, ◌+◌, ◌-◌, ◌≤◌, ◌<◌, ◌≡◌, refl, true, false, ◌||◌, none, some, List, [], ◌∷◌, arith, ◌==◌,
  ==_refl, length, saturating_add, u32_max,
}
use arthneura_core.Base.Map.{
  Map, lookup, insert, remove, lookup-insert, lookup-remove, insert-Unique, remove-Unique,
  total-insert, total-insert_new, total-remove, le-total,
}
use arthneura_core.Frame.{committed, committed_cases}
use arthneura_core.VectorDb.{
  VectorCommitment, DisputeRecord, StreamReceipt, VectorDb, Config, Hashing, pending, active,
  disputed, is_pending, is_active,
}
use arthneura_core.VectorDb.Outcome.{
  register_commitment-ok, acknowledge_commitment-ok, close_commitment-ok,
}
use arthneura_core.VectorDb.DisputeOutcome.{
  raise_dispute-ok, counter_dispute-ok, finalize_dispute-ok, expire_commitment-ok,
}
use arthneura_core.VectorDb.Invariant.{
  IsConsistent, IsValid, Fits, open_count, is_pending-eq, is_active-eq, is_disputed-eq, at_key,
  fits_at, early_clean,
}
use arthneura_core.VectorDb.Calls.{
  Call, Step, calls, registers, acknowledges, closes, raises, counters, finalizes, expires,
  elsewhere, call, run,
}

module _ (ms : Map VectorCommitment) (ds : Map DisputeRecord) (rs : Map StreamReceipt) (n : ℕ)
    (v : IsConsistent ms ds rs n) where
  register-IsConsistent :
      (id : ℕ) (m : VectorCommitment)
      → lookup id ms ≡ none
      → m.commitment_id ≡ id
      → m.status ≡ pending
      → IsConsistent (insert id m ms) ds rs (n + 1)
  register-IsConsistent id m fresh named is = record {
    keyed = insert-Unique id m ms v.keyed;
    counted = ground (arith, total-insert_new open_count id m ms fresh, v.counted);
    fits =
        at_key id _ (rw (lookup-insert, ==_refl) (named, rw is (rw fresh at (v.fits id))))
          λ j miss. rw (lookup-insert, miss) (v.fits j);
  }

  -- Overwriting a stored commitment, with its new dispute record and receipt.
  overwrite-IsConsistent :
      (id : ℕ) (m m' : VectorCommitment) (ds' : Map DisputeRecord) (rs' : Map StreamReceipt)
      (n' : ℕ)
      → lookup id ms ≡ some m
      → n' + open_count m ≡ n + open_count m'
      → Fits id (some m') (lookup id ds') (lookup id rs')
      → ((j : ℕ) → (id == j) ≡ false → lookup j ds' ≡ lookup j ds)
      → ((j : ℕ) → (id == j) ≡ false → lookup j rs' ≡ lookup j rs)
      → IsConsistent (insert id m' ms) ds' rs' n'
  overwrite-IsConsistent id m m' ds' rs' n' found change here same_d same_r = record {
    keyed = insert-Unique id m' ms v.keyed;
    counted = omega (arith, total-insert open_count id m' m ms found, v.counted);
    fits =
        at_key id _ (rw (lookup-insert, ==_refl) here)
          λ j miss. rw (lookup-insert, miss, same_d j miss, same_r j miss) (v.fits j);
  }

  remove-IsConsistent :
      (id : ℕ) (m : VectorCommitment)
      → lookup id ms ≡ some m
      → (is_pending m.status || is_active m.status) ≡ true
      → IsConsistent (remove id ms) ds rs (n - 1)
  remove-IsConsistent id m found is =
      let at = rw found at (v.fits id) in
      let clean = early_clean m.status m (lookup id ds) (lookup id rs) is at.1 in
      record {
        keyed = remove-Unique id ms v.keyed;
        counted = ground (arith, total-remove open_count id m ms v.keyed found, v.counted);
        fits =
            at_key id _ (rw (lookup-remove, ==_refl) clean)
              λ j miss. rw (lookup-remove, miss) (v.fits j);
      }

  open_le : (id : ℕ) (m : VectorCommitment) → lookup id ms ≡ some m → open_count m ≤ n
  open_le id m found = rw v.counted (le-total open_count id m ms found)

abbrev GrowsByOne : {W : Type 0} → VectorDb W → VectorDb W → Type 0
GrowsByOne s t = t.active_commitment_count ≤ s.active_commitment_count + 1

module _ {W : Type 0} (cfg : Config W) (k : Hashing) where
  -- Every call keeps the records in line, as long as the `u32` counter has room.
  pub call-IsConsistent :
      (x : Call) (s : VectorDb W)
      → IsValid s
      → s.active_commitment_count < u32_max
      → IsValid (committed s (call cfg k x s))
  unfolding call
  call-IsConsistent (registers now o provider consumer root chunks metadata expires_in price) s v
        room =
      committed_cases IsValid s _ v λ t e.
        let (_, _, _, _, _, _, _, _, _, fresh, done) =
          register_commitment-ok cfg k now o provider consumer root chunks metadata expires_in price
            s t e in
        let counted : saturating_add s.active_commitment_count 1 ≡ s.active_commitment_count + 1 =
          omega arith in
        rw (done, counted) (register-IsConsistent _ _ _ _ v _ _ fresh refl refl)
  call-IsConsistent (acknowledges now o id consumer) s v room = committed_cases IsValid s _ v λ t e.
      let (_, m, _, _, _, found, is, _, _, _, _, _, done) =
        acknowledge_commitment-ok cfg now o id consumer s t e in
      let st = is_pending-eq m.status is in
      let at = fits_at id m _ _ _ _ pending v found st in
      rw done (
        overwrite-IsConsistent _ _ _ _ v id m _ _ _ _ found (rw st) at (λ j miss. refl)
          (λ j miss. refl))
  call-IsConsistent (closes now o id consumer stream_hash chunks) s v room =
      committed_cases IsValid s _ v λ t e.
        let (_, m, _, _, found, is, _, _, _, same, _, done) =
          close_commitment-ok cfg now o id consumer stream_hash chunks s t e in
        let st = is_active-eq m.status is in
        let at = fits_at id m _ _ _ _ active v found st in
        let open_one = open_le _ _ _ _ v id m found in
        rw done (
          overwrite-IsConsistent _ _ _ _ v id m _ _ _ _ found (ground arith)
            (rw (lookup-insert, ==_refl) (at.0, (at.1.0, (_, refl, same)))) (λ j miss. refl)
            (λ j miss. rw (lookup-insert, miss)))
  call-IsConsistent (raises now o id consumer index received chunks) s v room =
      committed_cases IsValid s _ v λ t e.
        let (_, m, _, found, is, _, _, _, _, within, done) =
          raise_dispute-ok cfg now o id consumer index received chunks s t e in
        let st = is_active-eq m.status is in
        let at = fits_at id m _ _ _ _ active v found st in
        rw done (
          overwrite-IsConsistent _ _ _ _ v id m _ _ _ _ found (ground arith)
            (rw (lookup-insert, ==_refl) (at.0, (at.1.1, (_, refl, refl, within, refl))))
            (λ j miss. rw (lookup-insert, miss)) (λ j miss. refl))
  call-IsConsistent (counters now o id provider chunk proof) s v room =
      committed_cases IsValid s _ v λ t e.
        let (_, m, d, _, _, found, is, _, _, recorded, _, _, _, _, done) =
          counter_dispute-ok cfg k now o id provider chunk proof s t e in
        let st = is_disputed-eq m.status is in
        let at = fits_at id m _ _ _ _ disputed v found st in
        let open_one = open_le _ _ _ _ v id m found in
        rw done (
          overwrite-IsConsistent _ _ _ _ v id m _ _ _ _ found (ground arith)
            (rw (lookup-insert, ==_refl) (at.0, (at.1.0, (_, _, refl, refl))))
            (λ j miss. rw (lookup-insert, miss)) (λ j miss. refl))
  call-IsConsistent (finalizes now o id) s v room = committed_cases IsValid s _ v λ t e.
      let (m, d, _, found, is, recorded, _, _, done) = finalize_dispute-ok cfg now o id s t e in
      let st = is_disputed-eq m.status is in
      let at = fits_at id m _ _ _ _ disputed v found st in
      let open_one = open_le _ _ _ _ v id m found in
      rw done (
        overwrite-IsConsistent _ _ _ _ v id m _ _ _ _ found (ground arith)
          (rw (lookup-insert, ==_refl) (at.0, (at.1.0, (_, _, refl, refl))))
          (λ j miss. rw (lookup-insert, miss)) (λ j miss. refl))
  call-IsConsistent (expires now o id) s v room = committed_cases IsValid s _ v λ t e.
      let (m, found, is, _, done) = expire_commitment-ok cfg now o id s t e in
      rw done (remove-IsConsistent _ _ _ _ v id m found is)

  -- One call opens at most one commitment.
  call_count : (x : Call) (s : VectorDb W) → GrowsByOne s (committed s (call cfg k x s))
  unfolding call
  call_count (registers now o provider consumer root chunks metadata expires_in price) s =
      committed_cases (GrowsByOne s) s _ (omega arith) λ t e.
        let (_, _, _, _, _, _, _, _, _, _, done) =
          register_commitment-ok cfg k now o provider consumer root chunks metadata expires_in price
            s t e in
        rw done (omega arith)
  call_count (acknowledges now o id consumer) s =
      committed_cases (GrowsByOne s) s _ (omega arith) λ t e.
        let (_, _, _, _, _, _, _, _, _, _, _, _, done) =
          acknowledge_commitment-ok cfg now o id consumer s t e in
        rw done (omega arith)
  call_count (closes now o id consumer stream_hash chunks) s =
      committed_cases (GrowsByOne s) s _ (omega arith) λ t e.
        let (_, _, _, _, _, _, _, _, _, _, _, done) =
          close_commitment-ok cfg now o id consumer stream_hash chunks s t e in
        rw done (omega arith)
  call_count (raises now o id consumer index received chunks) s =
      committed_cases (GrowsByOne s) s _ (omega arith) λ t e.
        let (_, _, _, _, _, _, _, _, _, _, done) =
          raise_dispute-ok cfg now o id consumer index received chunks s t e in
        rw done (omega arith)
  call_count (counters now o id provider chunk proof) s =
      committed_cases (GrowsByOne s) s _ (omega arith) λ t e.
        let (_, _, _, _, _, _, _, _, _, _, _, _, _, _, done) =
          counter_dispute-ok cfg k now o id provider chunk proof s t e in
        rw done (omega arith)
  call_count (finalizes now o id) s = committed_cases (GrowsByOne s) s _ (omega arith) λ t e.
      let (_, _, _, _, _, _, _, _, done) = finalize_dispute-ok cfg now o id s t e in
      rw done (omega arith)
  call_count (expires now o id) s = committed_cases (GrowsByOne s) s _ (omega arith) λ t e.
      let (_, _, _, _, done) = expire_commitment-ok cfg now o id s t e in rw done (omega arith)

  -- A valid state stays valid over any history too short to fill the `u32` counter, whatever the
  -- rest of the runtime does: the counter is the number of commitments that are pending, active or
  -- disputed, and the status of each commitment says which dispute record and which receipt stand
  -- beside it.
  pub run-IsConsistent :
      (xs : List (Step W)) (s : VectorDb W)
      → IsValid s
      → s.active_commitment_count + length xs ≤ u32_max
      → IsValid (run cfg k xs s)
  unfolding run
  run-IsConsistent [] s v room = v
  run-IsConsistent (elsewhere f ∷ xs) s v room =
      run-IsConsistent xs (record s { world = f s.world }) v (omega arith)
  run-IsConsistent (calls x ∷ xs) s v room =
      run-IsConsistent xs (committed s (call cfg k x s)) (call-IsConsistent x s v (omega arith))
        (omega (arith, call_count x s))
