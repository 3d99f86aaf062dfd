-- ===== src/Runtime/Example.antt =====
-- One deal in the runtime, for the tests: agent 11 of account 1 has sold something for 30 to agent 12 of
-- account 2, under the commitment id 7. The ledger is `Currency.Ledger`.
use arthneura_core.Base.{ℕ, refl, true, none, [], ◌∷◌, arith, ◌==◌, length}
use arthneura_core.Base.Map.{lookup, total}
use arthneura_core.Currency.Ledger.{Ledger, ledger}
use arthneura_core.Escrow.{EscrowRecord, locked}
use arthneura_core.Escrow.Solvency.{IsSolvent}
use arthneura_core.AgentRegistry.{AgentProfile, Registry, Crypto}
use arthneura_core.AgentRegistry
use arthneura_core.VectorDb.{
  VectorCommitment, CommitmentStatus, DisputeRecord, VectorDb, Hashing, pending, active, disputed,
}
use arthneura_core.VectorDb.Invariant.{IsValid, at_key}
use arthneura_core.Runtime.{World, escrow_part}
use arthneura_core.Runtime.Backing.{Backed}

abbrev pub crypto : Crypto
crypto = record {
  blake2_256 = length;
  is_pubkey = λ bytes. true;
  is_signature = λ bytes. true;
  verify = λ pubkey message signature. true;
}

abbrev pub host : Hashing
host = record {
  blake2_256 = length;
  verify_proof = λ hasher proof root indices leaves total_chunks. root == 500;
}

abbrev pub profile : ℕ → ℕ → AgentProfile
profile did controller = record {
  did = did;
  controller = controller;
  capabilities = 0;
  reputation_score = 3;
  status = AgentRegistry.active;
  registered_at = 1;
  is_verified = true;
  quantum_scheme = AgentRegistry.ml_dsa65;
  metadata = [];
  label = [];
}

-- What the ledger holds in reserve, beside the escrows: the deposits of the two agents, less `burned`
-- for each.
abbrev pub agents : (ℕ → ℕ) → Registry Ledger
agents reserved = record {
  agent_profiles = (11, profile 11 1) ∷ (12, profile 12 2) ∷ [];
  controller_agents = (1, 11 ∷ []) ∷ (2, 12 ∷ []) ∷ [];
  active_agent_count = 2;
  star_givers = [];
  dispute_strikes = [];
  balances = record { free = λ who. 1000; reserved = reserved };
  events = [];
}

abbrev pub deal : CommitmentStatus → VectorCommitment
deal status = record {
  commitment_id = 7;
  provider = 11;
  consumer = 12;
  merkle_root = 500;
  total_chunks = 8;
  metadata = [];
  status = status;
  created_at = 10;
  expires_at = 110;
  acknowledged_at = none;
  price = 30;
}

abbrev pub held_record : EscrowRecord
held_record = record { payer = 2; payee = 1; amount = 30; status = locked; locked_at = 12 }

abbrev pub dispute : DisputeRecord
dispute = record {
  commitment_id = 7;
  merkle_root = 500;
  received_chunk_hash = 9;
  disputed_chunk_index = 3;
  raised_at = 20;
  counter_deadline = 70;
  verdict = none;
}

abbrev pub pending_runtime : VectorDb (World Ledger)
pending_runtime = record {
  vector_commitments = (7, deal pending) ∷ [];
  active_commitment_count = 1;
  stream_receipts = [];
  dispute_records = [];
  dispute_window_override = none;
  world = record { agents = agents (λ who. 0); escrows = []; escrow_events = [] };
  events = [];
}

-- The funds of the deal are held.
abbrev pub held_world : World Ledger
held_world = record {
  agents = agents (λ who. 30);
  escrows = (7, held_record) ∷ [];
  escrow_events = [];
}

abbrev pub active_runtime : VectorDb (World Ledger)
active_runtime = record pending_runtime {
  vector_commitments = (7, deal active) ∷ [];
  world = held_world;
}

abbrev pub disputed_runtime : VectorDb (World Ledger)
disputed_runtime = record active_runtime {
  vector_commitments = (7, deal disputed) ∷ [];
  dispute_records = (7, dispute) ∷ [];
}

pub disputed_IsValid : IsValid disputed_runtime
unfolding lookup total
disputed_IsValid = record {
  keyed = (refl, tt);
  counted = refl;
  fits =
      at_key 7 _ (refl, (refl, (dispute, refl, refl, omega arith, refl)))
        (λ j miss. rw miss (refl, refl));
}

pub pending_Backed : Backed pending_runtime
unfolding lookup
pending_Backed =
    at_key 7 _ (λ m found engaged. ground arith) (λ j miss m found engaged. ground arith)

pub active_Backed : Backed active_runtime
unfolding lookup
active_Backed =
    at_key 7 _ (λ m found engaged. (held_record, refl, refl, ground arith))
      (λ j miss m found engaged. ground arith)

pub disputed_Backed : Backed disputed_runtime
unfolding lookup
disputed_Backed =
    at_key 7 _ (λ m found engaged. (held_record, refl, refl, ground arith))
      (λ j miss m found engaged. ground arith)

abbrev pub nothing_else : ℕ → ℕ
nothing_else who = 0

pub held_IsSolvent : IsSolvent ledger nothing_else (escrow_part held_world)
unfolding lookup total
held_IsSolvent = record { keyed = (refl, tt); covered = λ who. ground arith }
