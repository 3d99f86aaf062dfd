-- ===== src/Offchain/Store.antt =====
-- The chunk store of offchain-vector-db/src/lib.rs (`FsChunkStore` and `load_all_chunks`): one directory
-- for each commitment id, one file for each chunk. A file that is missing, and a rename that the file
-- system refuses, is `none`. The operations that write may fail for reasons of their own, which are
-- `StoreFaults`; a file that is there can be read.
use arthneura_core.Base.{
  ℕ, zero, suc, Bool, true, false, ◌<◌, ◌≡◌, ◌≢◌, refl, ap, ◌∙◌, Option, none, some, List, [], ◌∷◌,
  arith, ◌==◌, if◌then◌else◌, length,
}
use arthneura_core.Base.Map.{Map, lookup, get_or, insert, remove, lookup-insert}

abbrev pub Store : Type 0
Store = Map (Map (List ℕ))

-- How `fs::write` of a file ends: it is written, or it is not, and then the file is as it was, or has
-- the given bytes.
pub data Written : Type 0 where
  written : Written
  unwritten : Option (List ℕ) → Written

-- What fails on the disk: `create_dir_all` and `rename` where they are true, and the writes of the chunk
-- files, by their indices.
pub record StoreFaults : Type 0 where
  pub create_dir_all : Bool
  pub write : ℕ → Written
  pub rename : Bool

-- The loop over `chunks.iter().enumerate()`, at the index `i`: the directory, and whether all is written.
unfoldable pub write_from : StoreFaults → ℕ → List (List ℕ) → Map (List ℕ) → Map (List ℕ) × Bool
write_from faults i [] dir = (dir, true)
write_from faults i (chunk ∷ chunks) dir = elim (faults.write i) [
  | written ↦ write_from faults (suc i) chunks (insert i chunk dir)
  | unwritten none ↦ (dir, false)
  | unwritten (some bytes) ↦ (insert i bytes dir, false)
]

-- The store, and whether `Ok` is returned; `create_dir_all` keeps what is in a directory that exists.
unfoldable pub persist : StoreFaults → ℕ → List (List ℕ) → Store → Store × Bool
unfolding write_from
persist faults commitment_id chunks s =
    let (dir, saved) = write_from faults 0 chunks (get_or [] commitment_id s) in
    if faults.create_dir_all then (s, false) else (insert commitment_id dir s, saved)

unfoldable pub load_chunk : ℕ → ℕ → Store → Option (List ℕ)
load_chunk commitment_id index s = lookup index (get_or [] commitment_id s)

-- `fs::rename` of a directory: it fails on a source that is missing and on a target that has files.
unfoldable pub rekey : StoreFaults → ℕ → ℕ → Store → Option Store
rekey faults old_id new_id s = if faults.rename then none else elim (lookup old_id s) [
  | none ↦ none
  | some dir ↦ if old_id == new_id then some s else elim (get_or [] new_id s) [
    | [] ↦ some (insert new_id dir (remove old_id s))
    | _ ∷ _ ↦ none
  ]
]

-- `(i..i + n).map(|i| store.load_chunk(commitment_id, i)).collect()`
unfoldable pub load_from : ℕ → ℕ → ℕ → Store → Option (List (List ℕ))
unfolding load_chunk
load_from commitment_id i zero s = some []
load_from commitment_id i (suc n) s =
    let rest = load_from commitment_id (suc i) n s in
    elim (load_chunk commitment_id i s) [
      | none ↦ none
      | some chunk ↦ elim rest [ none ↦ none | some chunks ↦ some (chunk ∷ chunks) ]
    ]

unfoldable pub load_all_chunks : ℕ → ℕ → Store → Option (List (List ℕ))
unfolding load_from
load_all_chunks commitment_id total_chunks s = load_from commitment_id 0 total_chunks s

-- The directory is created, every chunk is written, and the rename is not refused.
pub record TakesWrites (faults : StoreFaults) : Type 0 where
  pub creates : faults.create_dir_all ≡ false
  pub writes : (i : ℕ) → faults.write i ≡ written
  pub renames : faults.rename ≡ false

write_all : ℕ → List (List ℕ) → Map (List ℕ) → Map (List ℕ)
write_all i [] dir = dir
write_all i (chunk ∷ chunks) dir = write_all (suc i) chunks (insert i chunk dir)

write_from-write_all :
    (faults : StoreFaults) (i : ℕ) (chunks : List (List ℕ)) (dir : Map (List ℕ))
    → TakesWrites faults
    → write_from faults i chunks dir ≡ (write_all i chunks dir, true)
unfolding write_from write_all
write_from-write_all faults i [] dir takes = refl
write_from-write_all faults i (c ∷ cs) dir takes =
    rw (write_from, takes.writes i) (write_from-write_all faults (suc i) cs (insert i c dir) takes)

-- Writing from an index on leaves the files before it.
write_all-before :
    (i j : ℕ) (chunks : List (List ℕ)) (dir : Map (List ℕ))
    → j < i
    → lookup j (write_all i chunks dir) ≡ lookup j dir
unfolding write_all
write_all-before i j [] dir before = refl
write_all-before i j (c ∷ cs) dir before =
    write_all-before (suc i) j cs (insert i c dir) (omega arith)
    ∙ ground (arith, lookup-insert j i c dir)

-- A directory in which the chunks have been written is read back.
load_from-write_all :
    (id i : ℕ) (chunks : List (List ℕ)) (dir : Map (List ℕ)) (s : Store)
    → get_or [] id s ≡ write_all i chunks dir
    → load_from id i (length chunks) s ≡ some chunks
unfolding write_all load_from load_chunk
load_from-write_all id i [] dir s at = refl
load_from-write_all id i (c ∷ cs) dir s at =
    let rest = load_from-write_all id (suc i) cs (insert i c dir) s at in
    let here : lookup i (get_or [] id s) ≡ some c =
      ap (λ d. lookup i d) at
      ∙ write_all-before (suc i) i cs (insert i c dir) (omega arith)
      ∙ ground (arith, lookup-insert i i c dir) in
    ground (arith, here, rest)

-- The chunks that a registration stages under `staging_id` and moves to the commitment's id, under which
-- nothing is stored yet, are staged and moved where the disk takes the writes, and are then read back whole and in order.
pub load_all_chunks-rekey-persist :
    (faults : StoreFaults) (staging_id id : ℕ) (chunks : List (List ℕ)) (s : Store)
    → TakesWrites faults
    → staging_id ≢ id
    → lookup id s ≡ none
    → (u : Store) × (t : Store) × (persist faults staging_id chunks s ≡ (u, true))
      × (rekey faults staging_id id u ≡ some t)
      × (load_all_chunks id (length chunks) t ≡ some chunks)
unfolding rekey persist load_all_chunks
load_all_chunks-rekey-persist faults staging_id id chunks s takes other new =
    let dir = write_all 0 chunks (get_or [] staging_id s) in
    let staged : Store = insert staging_id dir s in
    let t : Store = insert id dir (remove staging_id staged) in
    let there : lookup staging_id staged ≡ some dir =
      ground (arith, lookup-insert staging_id staging_id dir s) in
    let free : lookup id staged ≡ none = ground (arith, lookup-insert id staging_id dir s) in
    let moved : get_or [] id t ≡ dir =
      ground (arith, lookup-insert id id dir (remove staging_id staged)) in
    let wrote = write_from-write_all faults 0 chunks (get_or [] staging_id s) takes in
    let created = takes.creates in
    let renamed = takes.renames in
    (
      staged,
      t,
      ground arith,
      ground arith,
      load_from-write_all id 0 chunks (get_or [] staging_id s) t moved,
    )
