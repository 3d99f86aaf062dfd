-- ===== src/Runtime/Stranded.antt =====
-- `expire_commitment` and the escrow (pallets/pallet-vector-db/src/lib.rs with
-- runtime/src/adapters/escrow.rs): expiring an active commitment removes it and never calls
-- the escrow handler.
use arthneura_core.Base.{
  ℕ, ◌-◌, ◌≤◌, ◌≡◌, refl, inl, inr, true, none, some, List, [], ◌∷◌, arith, ◌==◌, ==_refl,
  Bool-cases,
}
use arthneura_core.Base.Map.{lookup, remove, lookup-insert, lookup-remove}
use arthneura_core.Frame.{signed, ok, committed, committed_cases}
use arthneura_core.Currency.{Currency}
use arthneura_core.Escrow.{EscrowRecord, is_locked}
use arthneura_core.AgentRegistry.{Crypto}
use arthneura_core.VectorDb.{
  VectorCommitment, VectorDb, Hashing, active, is_pending, commitment_id_of, expire_commitment,
  commitment_expired,
}
use arthneura_core.VectorDb.Outcome.{
  register_commitment-ok, acknowledge_commitment-ok, close_commitment-ok,
}
use arthneura_core.VectorDb.DisputeOutcome.{
  raise_dispute-ok, counter_dispute-ok, finalize_dispute-ok, expire_commitment-ok,
}
use arthneura_core.VectorDb.Calls.{
  Call, registers, acknowledges, closes, raises, counters, finalizes, expires,
}
use arthneura_core.VectorDb.Calls
use arthneura_core.Runtime.{World, vector_db_config}
use arthneura_core.Runtime.Adapters.{
  lock-escrows, release-escrows, refund-escrows, penalize_provider-escrows,
  penalize_false_disputer-escrows,
}
use arthneura_core.Runtime.History.{Extrinsic, trade, agent, step, run}
use arthneura_core.Runtime.Backing.{Backed}

module _ {B : Type 0} where
  -- The escrow `r` is locked under `id`, and at most a pending commitment has that id.
  abbrev Orphaned : ℕ → EscrowRecord → VectorDb (World B) → Type 0
  Orphaned id r s =
      (lookup id s.world.escrows ≡ some r)
      × ((m : VectorCommitment)
          → lookup id s.vector_commitments ≡ some m
          → is_pending m.status ≡ true)

module _ {B : Type 0} (c : Currency B) (k : Hashing) where
  call-Orphaned :
      (x : Call) (id : ℕ) (r : EscrowRecord) (s : VectorDb (World B))
      → Orphaned id r s
      → Orphaned id r (committed s (Calls.call (vector_db_config c) k x s))
  unfolding Calls.call
  call-Orphaned (registers now o provider consumer root chunks metadata expires_in price) id r s v =
      committed_cases (Orphaned id r) s _ v λ t e.
        let (_, _, _, _, _, _, _, _, _, fresh, done) =
          register_commitment-ok (vector_db_config c) k now o provider consumer root chunks metadata
            expires_in price s t e in
        elim (Bool-cases (commitment_id_of k provider consumer root now == id)) [
          | inl hit ↦
              rw done (v.0, λ m mine. let new = rw (lookup-insert, hit) at mine in ground arith)
          | inr miss ↦ rw done (v.0, λ m mine. v.1 m (rw (lookup-insert, miss) at mine))
        ]
  call-Orphaned (acknowledges now o j consumer) id r s v =
      committed_cases (Orphaned id r) s _ v λ t e.
        let (who, n, payee, w, _, found, is, _, _, _, _, held, done) =
          acknowledge_commitment-ok (vector_db_config c) now o j consumer s t e in
        let (fresh, es) = lock-escrows c now j who payee n.price s.world w held in
        elim (Bool-cases (j == id)) [
          | inl hit ↦ let here = v.0 in absurd (ground arith)
          | inr miss ↦
              rw (done, es)
                (rw (lookup-insert, miss) (v.0), λ m mine. v.1 m (rw (lookup-insert, miss) at mine))
        ]
  call-Orphaned (closes now o j consumer stream_hash chunks) id r s v =
      committed_cases (Orphaned id r) s _ v λ t e.
        let (_, n, w, _, found, is, _, _, _, same, paid, done) =
          close_commitment-ok (vector_db_config c) now o j consumer stream_hash chunks s t e in
        let (_, _, _, es) = release-escrows c j s.world w paid in
        elim (Bool-cases (j == id)) [
          | inl hit ↦ let early = v.1 n in absurd (ground arith)
          | inr miss ↦
              rw (done, es)
                (rw (lookup-insert, miss) (v.0), λ m mine. v.1 m (rw (lookup-insert, miss) at mine))
        ]
  call-Orphaned (raises now o j consumer index received chunks) id r s v =
      committed_cases (Orphaned id r) s _ v λ t e.
        let (_, n, _, found, is, _, _, _, _, _, done) =
          raise_dispute-ok (vector_db_config c) now o j consumer index received chunks s t e in
        elim (Bool-cases (j == id)) [
          | inl hit ↦ let early = v.1 n in absurd (ground arith)
          | inr miss ↦ rw done (v.0, λ m mine. v.1 m (rw (lookup-insert, miss) at mine))
        ]
  call-Orphaned (counters now o j provider chunk proof) id r s v =
      committed_cases (Orphaned id r) s _ v λ t e.
        let (_, n, d, w, _, found, is, _, _, recorded, _, _, _, paid, done) =
          counter_dispute-ok (vector_db_config c) k now o j provider chunk proof s t e in
        let (_, _, _, es) = release-escrows c j s.world w paid in
        elim (Bool-cases (j == id)) [
          | inl hit ↦ let early = v.1 n in absurd (ground arith)
          | inr miss ↦
              rw (done, penalize_false_disputer-escrows c n.consumer w, es)
                (rw (lookup-insert, miss) (v.0), λ m mine. v.1 m (rw (lookup-insert, miss) at mine))
        ]
  call-Orphaned (finalizes now o j) id r s v = committed_cases (Orphaned id r) s _ v λ t e.
      let (n, d, w, found, is, recorded, _, paid, done) =
        finalize_dispute-ok (vector_db_config c) now o j s t e in
      let (_, _, _, es) = refund-escrows c j s.world w paid in
      elim (Bool-cases (j == id)) [
        | inl hit ↦ let early = v.1 n in absurd (ground arith)
        | inr miss ↦
            rw (done, penalize_provider-escrows c n.provider w, es)
              (rw (lookup-insert, miss) (v.0), λ m mine. v.1 m (rw (lookup-insert, miss) at mine))
      ]
  call-Orphaned (expires now o j) id r s v = committed_cases (Orphaned id r) s _ v λ t e.
      let (n, found, _, _, done) = expire_commitment-ok (vector_db_config c) now o j s t e in
      rw done (v.0, λ m mine. ground (arith, lookup-remove id j s.vector_commitments, v.1 m))

  expire_allowed :
      (now who id : ℕ) (m : VectorCommitment) (s : VectorDb (World B))
      → lookup id s.vector_commitments ≡ some m
      → m.status ≡ active
      → m.expires_at ≤ now
      → (t : VectorDb (World B)) × (expire_commitment (vector_db_config c) now (signed who) id s
          ≡ ok t)
        × (t.world ≡ s.world)
        × (lookup id t.vector_commitments ≡ none)
  unfolding expire_commitment
  expire_allowed now who id m s found is late = (
    record s {
      vector_commitments = remove id s.vector_commitments;
      active_commitment_count = s.active_commitment_count - 1;
      events = commitment_expired id ∷ s.events;
    },
    ground arith,
    refl,
    rw (lookup-remove, ==_refl),
  )

module _ {B : Type 0} (c : Currency B) (crypto : Crypto) (k : Hashing) where
  run-Orphaned :
      (xs : List Extrinsic) (id : ℕ) (r : EscrowRecord) (s : VectorDb (World B))
      → Orphaned id r s
      → Orphaned id r (run c crypto k xs s)
  unfolding run step
  run-Orphaned [] id r s v = v
  run-Orphaned (trade x ∷ xs) id r s v =
      run-Orphaned xs id r (step c crypto k (trade x) s) (call-Orphaned c k x id r s v)
  run-Orphaned (agent x ∷ xs) id r s v = run-Orphaned xs id r (step c crypto k (agent x) s) v

  -- In a backed runtime any account can expire an active commitment that has lapsed, which moves no
  -- funds; from then on the escrow of its price stays locked through every history of the runtime:
  -- it is never released and never refunded.
  pub expire_commitment-strands :
      (now who id : ℕ) (m : VectorCommitment) (s : VectorDb (World B))
      → Backed s
      → lookup id s.vector_commitments ≡ some m
      → m.status ≡ active
      → m.expires_at ≤ now
      → (t : VectorDb (World B)) × (r : EscrowRecord) × (expire_commitment
            (vector_db_config c)
            now
            (signed who)
            id
            s
          ≡ ok t)
        × (t.world ≡ s.world)
        × (is_locked r.status ≡ true)
        × (r.amount ≡ m.price)
        × ((xs : List Extrinsic) → lookup id (run c crypto k xs t).world.escrows ≡ some r)
  expire_commitment-strands now who id m s b found is late =
      let (t, done, same, gone) = expire_allowed c k now who id m s found is late in
      let (r, held, locked, price) = b id m found (rw is) in
      let start : Orphaned id r t = (rw same held, λ n mine. ground arith) in
      (t, r, done, same, locked, price, λ xs. (run-Orphaned xs id r t start).0)
