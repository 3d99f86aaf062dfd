-- ===== src/VectorDb/Invariant.antt =====
-- The invariant of pallets/pallet-vector-db/src/lib.rs: what the status of a commitment says about
-- its dispute record, its receipt and the counter.
use arthneura_core.Base.{
  ℕ, ◌<◌, ◌≡◌, refl, inl, inr, true, false, ◌||◌, none, some, Option, arith, ◌==◌, if◌then◌else◌,
  Bool-cases,
}
use mathlib.Core.Path.{subst}
use arthneura_core.Base.Map.{Map, Unique, lookup, total}
use arthneura_core.VectorDb.{
  VectorCommitment, DisputeRecord, StreamReceipt, DisputeVerdict, CommitmentStatus, VectorDb,
  pending, active, settled, disputed, dispute_resolved, expired, is_pending, is_active, is_disputed,
}

-- What stands beside a commitment of a given status: no dispute and no receipt before it is settled
-- or disputed; a receipt for the committed root once settled; an undecided dispute over a chunk that
-- exists while disputed; a decided one once resolved. `Expired` is never stored.
abbrev pub StatusFits :
    CommitmentStatus → VectorCommitment → Option DisputeRecord → Option StreamReceipt → Type 0
StatusFits pending m d r = (d ≡ none) × (r ≡ none)
StatusFits active m d r = (d ≡ none) × (r ≡ none)
StatusFits settled m d r =
    (d ≡ none) × ((x : StreamReceipt) × (r ≡ some x) × (x.final_stream_hash ≡ m.merkle_root))
StatusFits disputed m d r =
    (r ≡ none)
    × ((x : DisputeRecord) × (d ≡ some x)
        × (x.verdict ≡ none)
        × (x.disputed_chunk_index < m.total_chunks)
        × (x.merkle_root ≡ m.merkle_root))
StatusFits dispute_resolved m d r =
    (r ≡ none) × ((x : DisputeRecord) × (v : DisputeVerdict) × (d ≡ some x) × (x.verdict ≡ some v))
StatusFits expired m d r = ⊥

-- No record is left behind where there is no commitment.
abbrev pub Fits : ℕ → Option VectorCommitment → Option DisputeRecord → Option StreamReceipt → Type 0
Fits id none d r = (d ≡ none) × (r ≡ none)
Fits id (some m) d r = (m.commitment_id ≡ id) × StatusFits m.status m d r

-- 1 for a commitment that is pending, active or disputed.
abbrev pub open_count : VectorCommitment → ℕ
open_count m = if is_pending m.status || (is_active m.status || is_disputed m.status) then 1 else 0

pub record IsConsistent (commitments : Map VectorCommitment) (disputes : Map DisputeRecord)
    (receipts : Map StreamReceipt) (count : ℕ) : Type 0 where
  pub keyed : Unique commitments
  pub counted : count ≡ total open_count commitments
  pub fits : (id : ℕ) → Fits id (lookup id commitments) (lookup id disputes) (lookup id receipts)

abbrev pub IsValid : {W : Type 0} → VectorDb W → Type 0
IsValid s =
    IsConsistent s.vector_commitments s.dispute_records s.stream_receipts s.active_commitment_count

pub is_pending-eq : (st : CommitmentStatus) → is_pending st ≡ true → st ≡ pending
is_pending-eq pending h = refl
is_pending-eq active h = cc
is_pending-eq settled h = cc
is_pending-eq disputed h = cc
is_pending-eq dispute_resolved h = cc
is_pending-eq expired h = cc

pub is_active-eq : (st : CommitmentStatus) → is_active st ≡ true → st ≡ active
is_active-eq pending h = cc
is_active-eq active h = refl
is_active-eq settled h = cc
is_active-eq disputed h = cc
is_active-eq dispute_resolved h = cc
is_active-eq expired h = cc

pub is_disputed-eq : (st : CommitmentStatus) → is_disputed st ≡ true → st ≡ disputed
is_disputed-eq pending h = cc
is_disputed-eq active h = cc
is_disputed-eq settled h = cc
is_disputed-eq disputed h = refl
is_disputed-eq dispute_resolved h = cc
is_disputed-eq expired h = cc

-- A family that holds at one key, and at every other, holds everywhere.
pub at_key : (id : ℕ) (P : ℕ → Type 0) → P id → ((j : ℕ) → (id == j) ≡ false → P j) → (j : ℕ) → P j
at_key id P here there j = elim (Bool-cases (id == j)) [
  | inl hit ↦ let same : id ≡ j = ground arith in subst P same here
  | inr miss ↦ there j miss
]

-- What the invariant says of a commitment that is stored.
pub fits_at :
    (id : ℕ) (m : VectorCommitment) (commitments : Map VectorCommitment)
    (disputes : Map DisputeRecord) (receipts : Map StreamReceipt) (count : ℕ)
    (st : CommitmentStatus)
    → IsConsistent commitments disputes receipts count
    → lookup id commitments ≡ some m
    → m.status ≡ st
    → (m.commitment_id ≡ id) × StatusFits st m (lookup id disputes) (lookup id receipts)
fits_at id m commitments disputes receipts count st v found is =
    let at = rw found at (v.fits id) in
    (at.0, subst (λ z. StatusFits z m (lookup id disputes) (lookup id receipts)) is at.1)

-- A commitment that is pending or active has no dispute record and no receipt.
pub early_clean :
    (st : CommitmentStatus) (m : VectorCommitment) (d : Option DisputeRecord)
    (r : Option StreamReceipt)
    → (is_pending st || is_active st) ≡ true
    → StatusFits st m d r
    → (d ≡ none) × (r ≡ none)
early_clean pending m d r h f = f
early_clean active m d r h f = f
early_clean settled m d r h f = cc
early_clean disputed m d r h f = cc
early_clean dispute_resolved m d r h f = cc
early_clean expired m d r h f = cc
