-- ===== src/VectorDb/Types.antt =====
-- The data of pallets/pallet-vector-db/src/lib.rs: commitments, receipts, disputes, storage, events,
-- and the traits through which the pallet reaches the rest of the runtime. DIDs, accounts and
-- hashes are 32-byte values and stand as numbers; a `BoundedVec` is the list of its items.
use arthneura_core.Base.{ℕ, Bool, true, false, Option, List}
use arthneura_core.Base.Map.{Map}
use arthneura_core.Frame.{Result}

pub data CommitmentStatus : Type 0 where
  pending : CommitmentStatus
  active : CommitmentStatus
  settled : CommitmentStatus
  disputed : CommitmentStatus
  dispute_resolved : CommitmentStatus
  expired : CommitmentStatus

-- `status == CommitmentStatus::Pending`, and so for `Active` and `Disputed`.
abbrev pub is_pending : CommitmentStatus → Bool
is_pending pending = true
is_pending active = false
is_pending settled = false
is_pending disputed = false
is_pending dispute_resolved = false
is_pending expired = false

abbrev pub is_active : CommitmentStatus → Bool
is_active pending = false
is_active active = true
is_active settled = false
is_active disputed = false
is_active dispute_resolved = false
is_active expired = false

abbrev pub is_disputed : CommitmentStatus → Bool
is_disputed pending = false
is_disputed active = false
is_disputed settled = false
is_disputed disputed = true
is_disputed dispute_resolved = false
is_disputed expired = false

pub record VectorCommitment : Type 0 where
  pub commitment_id : ℕ
  pub provider : ℕ
  pub consumer : ℕ
  pub merkle_root : ℕ
  pub total_chunks : ℕ
  pub metadata : List ℕ
  pub status : CommitmentStatus
  pub created_at : ℕ
  pub expires_at : ℕ
  pub acknowledged_at : Option ℕ
  pub price : ℕ

pub record StreamReceipt : Type 0 where
  pub commitment_id : ℕ
  pub final_stream_hash : ℕ
  pub chunk_count : ℕ
  pub submitted_at : ℕ

pub data DisputeVerdict : Type 0 where
  provider_guilty : DisputeVerdict
  claimant_unsubstantiated : DisputeVerdict

pub record DisputeRecord : Type 0 where
  pub commitment_id : ℕ
  pub merkle_root : ℕ
  pub received_chunk_hash : ℕ
  pub disputed_chunk_index : ℕ
  pub raised_at : ℕ
  pub counter_deadline : ℕ
  pub verdict : Option DisputeVerdict

pub data VectorDbEvent : Type 0 where
  commitment_registered : ℕ → ℕ → ℕ → ℕ → ℕ → ℕ → List ℕ → VectorDbEvent
  commitment_acknowledged : ℕ → ℕ → VectorDbEvent
  commitment_settled : ℕ → ℕ → ℕ → VectorDbEvent
  dispute_raised : ℕ → ℕ → ℕ → ℕ → ℕ → VectorDbEvent
  dispute_countered : ℕ → DisputeVerdict → VectorDbEvent
  dispute_finalized : ℕ → DisputeVerdict → ℕ → ℕ → VectorDbEvent
  commitment_expired : ℕ → VectorDbEvent

-- The traits `AgentLookup`, `ReputationHandler` and `EscrowHandler`, over the state `W` of the rest
-- of the runtime. `lock` is handed the current block, which its implementation reads.
pub record AgentLookup (W : Type 0) : Type 0 where
  pub controller_of : W → ℕ → Option ℕ
  pub is_active_verified : W → ℕ → Bool

pub record ReputationHandler (W : Type 0) : Type 0 where
  pub penalize_provider : ℕ → W → W
  pub penalize_false_disputer : ℕ → W → W

pub record EscrowHandler (W : Type 0) : Type 0 where
  pub lock : ℕ → ℕ → ℕ → ℕ → ℕ → W → Result W
  pub release : ℕ → W → Result W
  pub refund : ℕ → W → Result W

-- The trait `rs_merkle::Hasher`.
pub record Hasher : Type 0 where
  pub hash : List ℕ → ℕ
  pub concat_and_hash : ℕ → Option ℕ → ℕ

-- The host's hash, and `MerkleProof::verify` of the crate `rs_merkle` for a given hasher: a proof,
-- a root, the leaf indices, the leaf hashes and the number of leaves.
pub record Hashing : Type 0 where
  pub blake2_256 : List ℕ → ℕ
  pub verify_proof : Hasher → List ℕ → ℕ → List ℕ → List ℕ → ℕ → Bool

-- What the trait `Config` supplies; the two slash amounts are read by the runtime's adapter.
pub record Config (W : Type 0) : Type 0 where
  pub agents : AgentLookup W
  pub reputation : ReputationHandler W
  pub escrow : EscrowHandler W
  pub dispute_window : ℕ
  pub max_commitment_lifetime : ℕ

-- The storage items of the pallet, the rest of the runtime and the events so far, latest first.
pub record VectorDb (W : Type 0) : Type 0 where
  pub vector_commitments : Map VectorCommitment
  pub active_commitment_count : ℕ
  pub stream_receipts : Map StreamReceipt
  pub dispute_records : Map DisputeRecord
  pub dispute_window_override : Option ℕ
  pub world : W
  pub events : List VectorDbEvent
