-- ===== src/VectorDb/Verdicts.antt =====
-- A dispute in pallets/pallet-vector-db/src/lib.rs is decided once: by a refutation or by a guilty verdict.
use arthneura_core.Base.{ℕ, ◌≡◌, refl, some, List, arith, ==_refl}
use arthneura_core.Base.Map.{lookup, lookup-insert}
use arthneura_core.Frame.{Origin, ok}
use arthneura_core.VectorDb.{
  VectorCommitment, VectorDb, Config, Hashing, dispute_resolved, disputed, counter_dispute,
  finalize_dispute,
}
use arthneura_core.VectorDb.DisputeOutcome.{counter_dispute-ok, finalize_dispute-ok}
use arthneura_core.VectorDb.Invariant.{is_disputed-eq}
use arthneura_core.VectorDb.Lifecycle.{run_terminal}
use arthneura_core.VectorDb.Calls.{Step, run}

module _ {W : Type 0} (cfg : Config W) (k : Hashing) where
  -- The dispute over a commitment is decided at a block: a refutation is accepted, or the dispute is finalized.
  pub data Decides (id now : ℕ) (s t : VectorDb W) : Type 0 where
    refuted :
        (origin : Origin) (provider : ℕ) (chunk proof : List ℕ)
        → counter_dispute cfg k now origin id provider chunk proof s ≡ ok t
        → Decides id now s t
    condemned : (origin : Origin) → finalize_dispute cfg now origin id s ≡ ok t → Decides id now s t

  -- Only a disputed commitment is decided.
  Decides-disputed :
      (id now : ℕ) (s t : VectorDb W)
      → Decides id now s t
      → (m : VectorCommitment) × (lookup id s.vector_commitments ≡ some m)
        × (m.status ≡ disputed)
        × (lookup id t.vector_commitments ≡ some (record m { status = dispute_resolved }))
  Decides-disputed id now s t (refuted o provider chunk proof e) =
      let (_, m, _, _, _, found, is, _, _, _, _, _, _, _, done) =
        counter_dispute-ok cfg k now o id provider chunk proof s t e in
      (m, found, is_disputed-eq m.status is, rw done (rw (lookup-insert, ==_refl)))
  Decides-disputed id now s t (condemned o e) =
      let (m, _, _, found, is, _, _, _, done) = finalize_dispute-ok cfg now o id s t e in
      (m, found, is_disputed-eq m.status is, rw done (rw (lookup-insert, ==_refl)))

  -- A dispute is decided at most once. Once a refutation has been accepted or the dispute has been
  -- finalized, then after any history of calls, between which the rest of the runtime may change in any
  -- way, neither a refutation nor a guilty verdict succeeds on that commitment, at any block.
  pub Decides-once :
      (id now later : ℕ) (s t u : VectorDb W) (xs : List (Step W))
      → Decides id now s t
      → ¬ Decides id later (run cfg k xs t) u
  Decides-once id now later s t u xs first second =
      let (m, _, _, resolved) = Decides-disputed id now s t first in
      let still =
        run_terminal cfg k xs id (record m { status = dispute_resolved }) t resolved refl in
      let (n, found, is, _) = Decides-disputed id later (run cfg k xs t) u second in ground arith
