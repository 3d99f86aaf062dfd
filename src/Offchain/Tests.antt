-- ===== src/Offchain/Tests.antt =====
-- The client (offchain-vector-db/src) on concrete inputs: payloads cut into chunks, and stores in which a
-- directory is in the way.
use arthneura_core.Base.{
  zero, suc, ◌⊎◌, inl, inr, ◌++◌, ◌==◌, if◌then◌else◌, Bool-cases, arith, ℕ, ◌≡◌, ◌<◌, ◌≤◌, refl,
  true, false, none, some, List, [], ◌∷◌, length,
}
use arthneura_core.Base.Map.{lookup, insert}
use arthneura_core.Offchain.{
  ready, refused, empty_payload, chunks_of, fill, byte_chunks, split_lines, trim_return, rows,
  row_chunks, max_metadata_len,
}
use arthneura_core.Offchain.Chunks.{join, AllSized, chunks_of-AllSized}
use arthneura_core.Offchain.Slices.{
  Files, IsReader, AllWithin, slice_from, slice_file_into_chunks, slice_file_into_chunks-ends,
}
use arthneura_core.Offchain.Example.{no_faults}
use arthneura_core.Offchain.Store.{Store, written, unwritten, write_from, persist, rekey}

-- `"ab\r\n\ncd"` at its lines.
rows_cut :
    chunks_of true (97 ∷ 98 ∷ 13 ∷ 10 ∷ 10 ∷ 99 ∷ 100 ∷ []) []
    ≡ ready ((97 ∷ 98 ∷ []) ∷ (99 ∷ 100 ∷ []) ∷ [])
unfolding chunks_of row_chunks rows split_lines trim_return
rows_cut = refl

blank_refused : chunks_of true (10 ∷ 13 ∷ 10 ∷ []) [] ≡ refused empty_payload
unfolding chunks_of row_chunks rows split_lines trim_return
blank_refused = refl

bytes_cut : chunks_of false (1 ∷ 2 ∷ 3 ∷ []) [] ≡ ready ((1 ∷ 2 ∷ 3 ∷ []) ∷ [])
unfolding chunks_of byte_chunks fill
bytes_cut = refl

abbrev payload : List ℕ
payload = 1 ∷ 2 ∷ 3 ∷ []

chunks_of-AllSized_example :
    (length payload ≤ max_metadata_len)
    × (0 < length (payload ∷ []))
    × AllSized (payload ∷ [])
    × (false ≡ false → join (payload ∷ []) ≡ payload)
unfolding chunks_of byte_chunks fill
chunks_of-AllSized_example = chunks_of-AllSized false payload payload (payload ∷ []) refl

abbrev two_chunks : List (List ℕ)
two_chunks = (97 ∷ 98 ∷ []) ∷ (99 ∷ []) ∷ []

-- A store in which the same payload has been staged before, longer by a chunk.
abbrev stale_store : Store
stale_store = (3, (0, 1 ∷ []) ∷ (1, 2 ∷ []) ∷ (2, 3 ∷ []) ∷ []) ∷ []

taken : rekey no_faults 3 3 stale_store ≡ some stale_store
unfolding rekey lookup
taken = refl

occupied : rekey no_faults 9 3 (persist no_faults 9 two_chunks stale_store).0 ≡ none
unfolding rekey lookup persist insert write_from
occupied = refl

-- The second file cannot be written, and is left empty.
half_written :
    persist
      (record no_faults { write = λ i. if i == 1 then unwritten (some []) else written })
      9
      two_chunks
      []
    ≡ ((9, (0, 97 ∷ 98 ∷ []) ∷ (1, []) ∷ []) ∷ [], false)
unfolding persist insert write_from lookup
half_written = refl

-- A file whose reads return at most two bytes, however large the buffer is.
abbrev read_two : ℕ → List ℕ → ℕ ⊎ (List ℕ × List ℕ)
read_two n [] = inr ([], [])
read_two zero (x ∷ xs) = inr ([], x ∷ xs)
read_two (suc zero) (x ∷ xs) = inr (x ∷ [], xs)
read_two (suc (suc n)) (x ∷ []) = inr (x ∷ [], [])
read_two (suc (suc n)) (x ∷ y ∷ ys) = inr (x ∷ y ∷ [], ys)

read_two-takes :
    (n : ℕ) (file after bytes : List ℕ)
    → read_two n file ≡ inr (bytes, after)
    → (bytes ++ after) ≡ file
read_two-takes n [] after bytes e = ground arith
read_two-takes zero (x ∷ xs) after bytes e = ground arith
read_two-takes (suc zero) (x ∷ xs) after bytes e = ground arith
read_two-takes (suc (suc n)) (x ∷ []) after bytes e = ground arith
read_two-takes (suc (suc n)) (x ∷ y ∷ ys) after bytes e = ground arith

read_two-fits :
    (n : ℕ) (file after bytes : List ℕ) → read_two n file ≡ inr (bytes, after) → length bytes ≤ n
read_two-fits n [] after bytes e = ground arith
read_two-fits zero (x ∷ xs) after bytes e = ground arith
read_two-fits (suc zero) (x ∷ xs) after bytes e = ground arith
read_two-fits (suc (suc n)) (x ∷ []) after bytes e = ground arith
read_two-fits (suc (suc n)) (x ∷ y ∷ ys) after bytes e = ground arith

read_two-ends :
    (n : ℕ) (file after : List ℕ) → 0 < n → read_two n file ≡ inr ([], after) → file ≡ []
read_two-ends n [] after positive e = refl
read_two-ends zero (x ∷ xs) after positive e = absurd (omega arith)
read_two-ends (suc zero) (x ∷ xs) after positive e = absurd (ground arith)
read_two-ends (suc (suc n)) (x ∷ []) after positive e = absurd (ground arith)
read_two-ends (suc (suc n)) (x ∷ y ∷ ys) after positive e = absurd (ground arith)

-- The one file of the system is at path 0; elsewhere opening fails.
abbrev files : Files ℕ (List ℕ) ℕ
files = record {
  open_path = λ path. if path == 0 then inr payload else inl path;
  read_into = read_two;
}

abbrev contents : ℕ → List ℕ
contents path = payload

files-IsReader : IsReader files contents (λ file. file)
files-IsReader = record {
  opens = λ path file e. elim (Bool-cases (path == 0)) [
    | inl here ↦ ground arith
    | inr elsewhere ↦ absurd (ground arith)
  ];
  takes = read_two-takes;
  fits = read_two-fits;
  ends = read_two-ends;
}

slices_short : slice_file_into_chunks files 1024 4 0 ≡ some (inr ((1 ∷ 2 ∷ []) ∷ (3 ∷ []) ∷ []))
unfolding slice_file_into_chunks slice_from
slices_short = refl

-- With an empty buffer the first read already returns nothing.
slices_nothing : slice_file_into_chunks files 0 4 0 ≡ some (inr [])
unfolding slice_file_into_chunks slice_from
slices_nothing = refl

slice_file_into_chunks-ends_example :
    ((e : ℕ) × (slice_file_into_chunks files 2 4 0 ≡ some (inl e))
      × ((files.open_path 0 ≡ inl e) ⊎ ((file : List ℕ) × (files.read_into 2 file ≡ inl e))))
    ⊎ ((cs : List (List ℕ)) × (slice_file_into_chunks files 2 4 0 ≡ some (inr cs))
        × AllWithin 2 cs
        × (join cs ≡ contents 0))
slice_file_into_chunks-ends_example =
    slice_file_into_chunks-ends files 2 contents (λ file. file) files-IsReader 4 0 (omega arith)
      (omega arith)
