-- ===== src/VectorDb/Tests.antt =====
-- The commitment registry (pallets/pallet-vector-db/src/lib.rs) on concrete inputs: agent 1 sells 8 chunks
-- under the root 500 to agent 2, for 30. An agent is controlled by the account of the same number,
-- and the rest of the runtime counts how often the escrow was called.
use arthneura_core.Base.{
  ◌^◌, ℕ, suc, ◌*◌, ◌≡◌, ◌≢◌, ◌≤◌, refl, true, false, ◌&&◌, none, some, List, [], ◌∷◌, arith, ◌==◌,
  saturating_add, length,
}
use arthneura_core.Base.Map.{lookup, insert, remove, total}
use arthneura_core.Base.Bytes.{le_bytes, ascii}
use arthneura_core.Errors.{
  chunk_index_out_of_bounds, dispute_already_raised, dispute_window_expired,
}
use arthneura_core.Frame.{signed, ok, err, vector_db, committed}
use arthneura_core.VectorDb.{
  VectorCommitment, CommitmentStatus, DisputeRecord, VectorDb, Config, Hashing, active, settled,
  disputed, dispute_resolved, blake2b_hasher, as_usize, preimage, commitment_id_of,
  effective_dispute_window, register_commitment, acknowledge_commitment, close_commitment,
  raise_dispute, counter_dispute, expire_commitment,
}
use arthneura_core.VectorDb.Invariant.{IsValid, at_key}
use arthneura_core.VectorDb.Calls.{
  Step, calls, elsewhere, registers, acknowledges, closes, expires, run, call,
}
use arthneura_core.VectorDb.Preserved.{run-IsConsistent}
use arthneura_core.VectorDb.Lifecycle.{Fate, call-Fate}
use arthneura_core.VectorDb.Disputes.{unreachable_errors}
use arthneura_core.VectorDb.Verdicts.{Decides, refuted, Decides-once}
use mathlib.Core.Logic.{◌⊎◌}
use arthneura_core.VectorDb.Binding.{counter-raise}
use arthneura_core.VectorDb.CommitmentId.{commitment_id_of-injective}

abbrev setup : Config ℕ
setup = record {
  agents = record { controller_of = λ w did. some did; is_active_verified = λ w did. true };
  reputation = record { penalize_provider = λ did w. w; penalize_false_disputer = λ did w. w };
  escrow = record {
    lock = λ now id payer payee amount w. ok (suc w);
    release = λ id w. ok (suc w);
    refund = λ id w. ok (suc w);
  };
  dispute_window = 50;
  max_commitment_lifetime = 1000;
}

-- A host whose hash is the length, and which takes any proof under the root 500.
abbrev host : Hashing
host = record {
  blake2_256 = length;
  verify_proof = λ hasher proof root indices leaves total_chunks. root == 500;
}

abbrev deal : CommitmentStatus → VectorCommitment
deal status = record {
  commitment_id = 7;
  provider = 1;
  consumer = 2;
  merkle_root = 500;
  total_chunks = 8;
  metadata = [];
  status = status;
  created_at = 10;
  expires_at = 110;
  acknowledged_at = some 12;
  price = 30;
}

abbrev dispute : DisputeRecord
dispute = record {
  commitment_id = 7;
  merkle_root = 500;
  received_chunk_hash = 9;
  disputed_chunk_index = 3;
  raised_at = 20;
  counter_deadline = 70;
  verdict = none;
}

abbrev empty_db : VectorDb ℕ
empty_db = record {
  vector_commitments = [];
  active_commitment_count = 0;
  stream_receipts = [];
  dispute_records = [];
  dispute_window_override = none;
  world = 0;
  events = [];
}

abbrev active_db : VectorDb ℕ
active_db = record empty_db {
  vector_commitments = (7, deal active) ∷ [];
  active_commitment_count = 1;
}

abbrev disputed_db : VectorDb ℕ
disputed_db = committed active_db (raise_dispute setup 20 (signed 2) 7 2 3 9 8 active_db)

abbrev countered_db : VectorDb ℕ
countered_db =
    committed disputed_db (counter_dispute setup host 60 (signed 1) 7 1 (4 ∷ []) [] disputed_db)

raised_at_20 : raise_dispute setup 20 (signed 2) 7 2 3 9 8 active_db ≡ ok disputed_db
unfolding raise_dispute lookup
raised_at_20 = refl

countered_at_60 :
    counter_dispute setup host 60 (signed 1) 7 1 (4 ∷ []) [] disputed_db ≡ ok countered_db
unfolding raise_dispute counter_dispute lookup insert
countered_at_60 = refl

too_late_at_71 :
    counter_dispute setup host 71 (signed 1) 7 1 (4 ∷ []) [] disputed_db
    ≡ err (vector_db dispute_window_expired)
unfolding raise_dispute counter_dispute lookup insert
too_late_at_71 = refl

empty_IsValid : IsValid empty_db
unfolding lookup total
empty_IsValid = record { keyed = tt; counted = refl; fits = λ id. (refl, refl) }

active_IsValid : IsValid active_db
unfolding lookup total
active_IsValid = record {
  keyed = (refl, tt);
  counted = refl;
  fits = at_key 7 _ (refl, (refl, refl)) (λ j miss. rw miss (refl, refl));
}

disputed_IsValid : IsValid disputed_db
unfolding lookup total raise_dispute insert
disputed_IsValid = record {
  keyed = (refl, tt);
  counted = refl;
  fits =
      at_key 7 _ (refl, (refl, (dispute, refl, refl, omega arith, refl)))
        (λ j miss. rw miss (refl, refl));
}

-- A registration, its acknowledgement and its settlement, and a change of the rest of the runtime.
abbrev a_trade : List (Step ℕ)
a_trade =
    calls (registers 10 (signed 1) 1 2 500 8 [] 100 30)
    ∷ calls (acknowledges 12 (signed 2) 119 2)
    ∷ elsewhere (λ w. w * 10)
    ∷ calls (closes 20 (signed 2) 119 2 500 8)
    ∷ calls (expires 200 (signed 3) 119)
    ∷ []

run-IsConsistent_example : IsValid (run setup host a_trade empty_db)
run-IsConsistent_example = run-IsConsistent setup host a_trade empty_db empty_IsValid (omega arith)

-- The escrow was called twice, before and after the change, and nothing is left open.
a_trade_ends :
    ((run setup host a_trade empty_db).world ≡ 11)
    × ((run setup host a_trade empty_db).active_commitment_count ≡ 0)
unfolding run call expire_commitment lookup close_commitment acknowledge_commitment
    register_commitment insert remove commitment_id_of preimage ascii le_bytes
a_trade_ends = (refl, refl)

call-Fate_example : Fate (deal active) (
    lookup 7
      (committed active_db
        (call setup host (closes 20 (signed 2) 7 2 500 8) active_db)).vector_commitments)
unfolding lookup
call-Fate_example =
    call-Fate setup host (closes 20 (signed 2) 7 2 500 8) 7 (deal active) active_db refl

abbrev settled_db : VectorDb ℕ
settled_db = record empty_db { vector_commitments = (7, deal settled) ∷ [] }

disputed_found : lookup 7 disputed_db.vector_commitments ≡ some (deal disputed)
unfolding raise_dispute lookup insert
disputed_found = refl

-- Between the dispute and its refutation somebody tries to expire the commitment.
abbrev meanwhile : List (Step ℕ)
meanwhile = calls (expires 30 (signed 3) 7) ∷ []

Decides-once_example :
    ¬ Decides setup host 7 71 (run setup host meanwhile countered_db) countered_db
Decides-once_example =
    Decides-once setup host 7 60 71 disputed_db countered_db countered_db meanwhile
      (refuted (signed 1) 1 (4 ∷ []) [] countered_at_60)

countered_then :
    counter_dispute setup host 60 (signed 1) 7 1 (4 ∷ []) [] (run setup host meanwhile disputed_db)
    ≡ ok countered_db
unfolding raise_dispute counter_dispute lookup insert run call expire_commitment
countered_then = refl

counter-raise_example :
    (60 ≤ saturating_add 20 (effective_dispute_window setup active_db))
    × (host.verify_proof (blake2b_hasher host) [] 500 (as_usize 3 ∷ []) (1 ∷ []) (as_usize 8)
        ≡ true)
    × ((2 ^ 32 ≤ 8) ⊎ (host.verify_proof (blake2b_hasher host) [] 500 (3 ∷ []) (1 ∷ []) 8 ≡ true))
unfolding lookup
counter-raise_example =
    counter-raise setup host 20 60 (signed 2) (signed 1) 7 2 3 9 8 1 (4 ∷ []) [] meanwhile
      (deal active) active_db disputed_db countered_db refl raised_at_20 countered_then

-- A host that takes a proof for the one leaf at index 3 of 8, and no other.
abbrev strict_host : Hashing
strict_host = record {
  blake2_256 = length;
  verify_proof = λ hasher proof root indices leaves total_chunks. elim indices [
    | [] ↦ false
    | i ∷ rest ↦ (i == 3) && (total_chunks == 8)
  ];
}

abbrev vast : CommitmentStatus → VectorCommitment
vast status = record (deal status) { total_chunks = 4294967304 }

abbrev vast_db : VectorDb ℕ
vast_db = record active_db { vector_commitments = (7, vast active) ∷ [] }

abbrev vast_disputed_db : VectorDb ℕ
vast_disputed_db = committed vast_db (raise_dispute setup 20 (signed 2) 7 2 4294967299 9 8 vast_db)

-- Of the 4294967304 chunks the one with the index 4294967299 is disputed; the proof for index 3 of 8 is accepted.
truncated :
    lookup 7
      (committed vast_disputed_db (
        counter_dispute setup strict_host 60
          (signed 1)
          7
          1
          (4 ∷ [])
          []
          vast_disputed_db)).vector_commitments
    ≡ some (vast dispute_resolved)
unfolding raise_dispute counter_dispute lookup insert
truncated = refl

abbrev block : ℕ
block = 10

commitment_id_of-injective_example :
    (block ≡ block) × (block ≡ block) × (block ≡ block) × (block ≡ block)
commitment_id_of-injective_example =
    commitment_id_of-injective host block block block block block block block block
      (omega arith, omega arith, omega arith, omega arith)
      (omega arith, omega arith, omega arith, omega arith) (λ e. refl) refl

unreachable_errors_example :
    (counter_dispute setup host 60 (signed 1) 7 1 (4 ∷ []) [] disputed_db
      ≢ err (vector_db chunk_index_out_of_bounds))
    × (raise_dispute setup 60 (signed 1) 7 2 3 9 8 disputed_db
        ≢ err (vector_db dispute_already_raised))
unreachable_errors_example =
    unreachable_errors setup host 60 7 1 2 3 9 8 (signed 1) (4 ∷ []) [] disputed_db disputed_IsValid
      (λ e. absurd (cc))
