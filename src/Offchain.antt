-- ===== src/Offchain.antt =====
-- offchain-vector-db/src/merkle.rs and the parts of offchain-vector-db/src/lib.rs that come before a call
-- is submitted: a payload is cut into chunks and committed to by a Merkle root, and a disputed chunk
-- is proved. The chunk files are in Offchain/Store.antt; the submission is in Client/Commitments.antt, and the
-- environment variable `CHUNK_MODE` is an argument.
pub mod Chunks
pub mod Honest
pub mod Store
pub mod Slices
pub mod Example
mod Tests
use arthneura_core.Base.{
  ℕ, zero, suc, ◌-◌, Bool, true, false, not, ◌||◌, Option, none, some, List, [], ◌∷◌, ◌++◌, ◌==◌,
  ltb, leb, if◌then◌else◌, length, get_elem?,
}
use arthneura_core.Base.Bytes.{le_bytes}
use arthneura_core.VectorDb.{Hasher, Hashing}

abbrev pub max_chunk_len : ℕ
max_chunk_len = 1024

abbrev pub max_metadata_len : ℕ
max_metadata_len = 256

abbrev pub max_proof_depth : ℕ
max_proof_depth = 32

-- `MerkleTree` of the crate `rs_merkle`: the tree over given leaf hashes, its root (an empty tree has
-- none), and the hashes of a proof for given leaves.
pub record Trees (T : Type 0) : Type 0 where
  pub from_leaves : Hasher → List ℕ → T
  pub root : T → Option ℕ
  pub proof_hashes : T → List ℕ → List ℕ

-- What `RegisterCommitmentError` and `CounterDisputeError` report before anything is submitted, and
-- the panic of a root that is missing or an index out of range.
pub data ClientError : Type 0 where
  metadata_too_large : ℕ → ℕ → ClientError
  empty_payload : ClientError
  chunk_too_large : ℕ → ℕ → ClientError
  proof_too_deep : ℕ → ℕ → ClientError
  chunk_index_out_of_bounds : ℕ → ℕ → ClientError
  panicked : ClientError

pub data Prepared {ℓ} (A : Type ℓ) : Type ℓ where
  ready : A → Prepared A
  refused : ClientError → Prepared A

-- The client's copy of the hasher: the two halves of a buffer, hashed.
unfoldable pub merkle_concat : (List ℕ → ℕ) → ℕ → Option ℕ → ℕ
merkle_concat blake2_256 left (some r) =
    let buf = le_bytes 32 left ++ le_bytes 32 r in blake2_256 buf
merkle_concat blake2_256 left none = left

unfoldable pub merkle_hasher : Hashing → Hasher
merkle_hasher k = record { hash = k.blake2_256; concat_and_hash = merkle_concat k.blake2_256 }

unfoldable pub leaf_hashes : Hashing → List (List ℕ) → List ℕ
leaf_hashes k [] = []
leaf_hashes k (chunk ∷ chunks) = k.blake2_256 chunk ∷ leaf_hashes k chunks

-- `payload.chunks(MAX_CHUNK_LEN)`: the rest of a chunk that has room for `n` more bytes, and the chunks
-- after it.
unfoldable pub fill : ℕ → List ℕ → List ℕ × List (List ℕ)
fill n [] = ([], [])
fill zero (x ∷ xs) = let next = fill 1023 xs in ([], (x ∷ next.0) ∷ next.1)
fill (suc n) (x ∷ xs) = let next = fill n xs in (x ∷ next.0, next.1)

unfoldable pub byte_chunks : List ℕ → List (List ℕ)
unfolding fill
byte_chunks [] = []
byte_chunks (x ∷ xs) = let next = fill 1023 xs in (x ∷ next.0) ∷ next.1

-- `payload.split(|&b| b == b'\n')`: the first line and the others.
unfoldable pub split_lines : List ℕ → List ℕ × List (List ℕ)
split_lines [] = ([], [])
split_lines (b ∷ bs) =
    let rest = split_lines bs in if b == 10 then ([], rest.0 ∷ rest.1) else (b ∷ rest.0, rest.1)

-- A line without one `\r` at its end.
unfoldable pub trim_return : List ℕ → List ℕ
trim_return [] = []
trim_return (b ∷ []) = if b == 13 then [] else b ∷ []
trim_return (b ∷ c ∷ bs) = b ∷ trim_return (c ∷ bs)

-- The loop over the lines: blank lines are skipped, and one that is too long ends the call with the
-- error for an empty payload.
unfoldable pub rows : List (List ℕ) → Prepared (List (List ℕ))
rows [] = ready []
rows (l ∷ ls) =
    let rest = rows ls in
    let line = trim_return l in
    if length line == 0
    then rest
    else if ltb max_chunk_len (length line)
    then refused empty_payload
    else elim rest [ ready out ↦ ready (line ∷ out) | refused e ↦ refused e ]

-- `CHUNK_MODE=rows`, a failure where no row is left.
unfoldable pub row_chunks : List ℕ → Prepared (List (List ℕ))
unfolding rows split_lines
row_chunks payload =
    let lines = split_lines payload in
    elim (rows (lines.0 ∷ lines.1)) [
      | ready [] ↦ refused empty_payload
      | ready (c ∷ cs) ↦ ready (c ∷ cs)
      | refused e ↦ refused e
    ]

-- The chunks of a payload that the first two checks of `register_commitment` let through.
unfoldable pub chunks_of : Bool → List ℕ → List ℕ → Prepared (List (List ℕ))
unfolding row_chunks byte_chunks
chunks_of in_rows payload metadata =
    if ltb max_metadata_len (length metadata)
    then refused (metadata_too_large (length metadata) max_metadata_len)
    else if length payload == 0
    then refused empty_payload
    else if in_rows
    then row_chunks payload
    else ready (byte_chunks payload)

module _ {T : Type 0} (k : Hashing) (trees : Trees T) where
  unfoldable pub build_merkle_tree : List (List ℕ) → Prepared (ℕ × T)
  unfolding leaf_hashes merkle_hasher
  build_merkle_tree chunks =
      let tree = trees.from_leaves (merkle_hasher k) (leaf_hashes k chunks) in
      elim (trees.root tree) [ none ↦ refused panicked | some root ↦ ready (root, tree) ]

  unfoldable pub generate_inclusion_proof : T → ℕ → List ℕ
  generate_inclusion_proof tree leaf_index = trees.proof_hashes tree (leaf_index ∷ [])

  -- The arguments `chunk_data` and `merkle_proof` that `counter_dispute` submits, from the chunks it has
  -- loaded.
  unfoldable pub counter_arguments : List (List ℕ) → ℕ → ℕ → Prepared (List ℕ × List ℕ)
  unfolding build_merkle_tree generate_inclusion_proof
  counter_arguments chunks index total_chunks =
      if leb total_chunks index
      then refused (chunk_index_out_of_bounds index total_chunks)
      else elim (get_elem? chunks index) [
        | none ↦ refused panicked
        | some target_chunk ↦
            if ltb max_chunk_len (length target_chunk)
            then refused (chunk_too_large (length target_chunk) max_chunk_len)
            else elim (build_merkle_tree chunks) [
              | refused e ↦ refused e
              | ready built ↦
                  let proof_hashes = generate_inclusion_proof built.1 index in
                  if ltb max_proof_depth (length proof_hashes)
                  then refused (proof_too_deep (length proof_hashes) max_proof_depth)
                  else ready (target_chunk, proof_hashes)
            ]
      ]
