-- ===== src/Offchain/Example.antt =====
-- Merkle trees for examples of offchain-vector-db/src.
use arthneura_core.Base.{ℕ, refl, false, some, List, [], arith, ◌==◌, length}
use arthneura_core.VectorDb.{Hashing}
use arthneura_core.Offchain.{Trees}
use arthneura_core.Offchain.Store.{StoreFaults, TakesWrites, written}
use arthneura_core.Offchain.Honest.{IsComplete}

abbrev pub host : Hashing
host = record {
  blake2_256 = length;
  verify_proof = λ hasher proof root indices leaves total_chunks. root == 500;
}

-- A disk that takes every write.
abbrev pub no_faults : StoreFaults
no_faults = record { create_dir_all = false; write = λ i. written; rename = false }

pub no_faults-TakesWrites : TakesWrites no_faults
no_faults-TakesWrites = record { creates = refl; writes = λ i. refl; renames = refl }

-- A tree is the list of its leaves; every tree has the root 500, and a proof is empty.
abbrev pub flat_trees : Trees (List ℕ)
flat_trees = record {
  from_leaves = λ hasher leaves. leaves;
  root = λ tree. some 500;
  proof_hashes = λ tree indices. [];
}

pub flat-IsComplete : IsComplete host flat_trees
flat-IsComplete = record { verifies = λ h leaves i leaf root at rooted. ground arith }
