-- ===== src/Offchain/Slices.antt =====
-- `slice_file_into_chunks` of offchain-vector-db/src/merkle.rs: a file is read into one buffer again and again,
-- until a read returns nothing. The loop runs on fuel, which is more than the bytes of the file.
use arthneura_core.Base.{
  ℕ, zero, suc, ◌<◌, ◌≤◌, ◌≡◌, refl, ap, sym, ◌⊎◌, inl, inr, Option, none, some, List, [], ◌∷◌,
  ◌++◌, arith, length, length-append, Sum-cases,
}
use mathlib.Core.Path.{subst}
use arthneura_core.Offchain.Chunks.{join}

-- `std::fs::File`: opening a path, and reading into a buffer of a given length, which returns the bytes
-- that were read and the file after them, or an `IoError`.
pub record Files (P F E : Type 0) : Type 0 where
  pub open_path : P → E ⊎ F
  pub read_into : ℕ → F → E ⊎ (List ℕ × F)

-- `chunks.push`, before the chunks of the later reads.
abbrev pub push : {E : Type 0} → List ℕ → Option (E ⊎ List (List ℕ)) → Option (E ⊎ List (List ℕ))
push chunk none = none
push chunk (some (inl e)) = some (inl e)
push chunk (some (inr chunks)) = some (inr (chunk ∷ chunks))

module _ {P F E : Type 0} (fs : Files P F E) (chunk_size : ℕ) where
  -- The loop; `none` where the fuel is used up.
  unfoldable pub slice_from : ℕ → F → Option (E ⊎ List (List ℕ))
  slice_from zero file = none
  slice_from (suc fuel) file = elim (fs.read_into chunk_size file) [
    | inl e ↦ some (inl e)
    | inr ([], after) ↦ some (inr [])
    | inr (b ∷ bs, after) ↦ push (b ∷ bs) (slice_from fuel after)
  ]

  unfoldable pub slice_file_into_chunks : ℕ → P → Option (E ⊎ List (List ℕ))
  slice_file_into_chunks fuel file_path = elim (fs.open_path file_path) [
    | inl e ↦ some (inl e)
    | inr file ↦ slice_from fuel file
  ]

-- Every chunk has a byte, and no more than `n`.
abbrev pub AllWithin : ℕ → List (List ℕ) → Type 0
AllWithin n [] = Unit
AllWithin n (c ∷ cs) = (0 < length c) × (length c ≤ n) × AllWithin n cs

-- What the documentation of `Read` says: a read takes bytes off what remains of the file, at most as many as
-- the buffer has, and none only at the end of the file or with an empty buffer. `contents` is what a path
-- holds when it is opened.
pub record IsReader {P F E : Type 0} (fs : Files P F E) (contents : P → List ℕ)
    (remaining : F → List ℕ) : Type 0 where
  pub opens : (path : P) (file : F) → fs.open_path path ≡ inr file → remaining file ≡ contents path
  pub takes :
      (n : ℕ) (file after : F) (bytes : List ℕ)
      → fs.read_into n file ≡ inr (bytes, after)
      → (bytes ++ remaining after) ≡ remaining file
  pub fits :
      (n : ℕ) (file after : F) (bytes : List ℕ)
      → fs.read_into n file ≡ inr (bytes, after)
      → length bytes ≤ n
  pub ends :
      (n : ℕ) (file after : F) → 0 < n → fs.read_into n file ≡ inr ([], after) → remaining file ≡ []

module _ {P F E : Type 0} (fs : Files P F E) (n : ℕ) where
  -- The loop ends with an error that a read reported, or with chunks that are the given bytes.
  abbrev Sliced : List ℕ → Option (E ⊎ List (List ℕ)) → Type 0
  Sliced whole r =
      ((e : E) × (file : F) × (r ≡ some (inl e)) × (fs.read_into n file ≡ inl e))
      ⊎ ((cs : List (List ℕ)) × (r ≡ some (inr cs)) × AllWithin n cs × (join cs ≡ whole))

  push-Sliced :
      (b : ℕ) (bs rest : List ℕ) (r : Option (E ⊎ List (List ℕ)))
      → length (b ∷ bs) ≤ n
      → Sliced rest r
      → Sliced ((b ∷ bs) ++ rest) (push (b ∷ bs) r)
  push-Sliced b bs rest r short (inl (e, file, same, fails)) =
      inl (e, file, ap (push (b ∷ bs)) same, fails)
  push-Sliced b bs rest r short (inr (cs, same, within, whole)) = inr (
    (b ∷ bs) ∷ cs,
    ap (push (b ∷ bs)) same,
    (omega arith, short, within),
    ap (λ ys. (b ∷ bs) ++ ys) whole,
  )

  module _ (contents : P → List ℕ) (remaining : F → List ℕ)
      (reader : IsReader fs contents remaining) where
    slice_from-Sliced :
        (fuel : ℕ) (file : F)
        → 0 < n
        → length (remaining file) < fuel
        → Sliced (remaining file) (slice_from fs n fuel file)
    unfolding slice_from
    slice_from-Sliced zero file positive enough = absurd (omega arith)
    slice_from-Sliced (suc fuel) file positive enough = elim (Sum-cases (fs.read_into n file)) [
      | inl (e, fails) ↦ inl (e, file, rw (slice_from, fails) refl, fails)
      | inr (([], after), done) ↦
          inr ([], rw (slice_from, done) refl, tt, sym (reader.ends n file after positive done))
      | inr ((b ∷ bs, after), got) ↦
          let whole = reader.takes n file after (b ∷ bs) got in
          let short = reader.fits n file after (b ∷ bs) got in
          let sum = length-append (b ∷ bs) (remaining after) in
          let size : length ((b ∷ bs) ++ remaining after) ≡ length (remaining file) =
            ap length whole in
          let fewer : length (remaining after) < fuel = omega arith in
          let sliced = slice_from-Sliced fuel after positive fewer in
          let pushed =
            push-Sliced b bs (remaining after) (slice_from fs n fuel after) short sliced in
          rw (slice_from, got)
            (subst (λ w. Sliced w (push (b ∷ bs) (slice_from fs n fuel after))) whole pushed)
    ]

    -- Where a read takes from what remains of the file and no read returns nothing before its end, slicing a file ends
    -- after no more reads than it has bytes, and one: with an error that the path or a read reported, or with
    -- chunks of 1 to `n` bytes which put together are the file. The chunk size is not 0.
    pub slice_file_into_chunks-ends :
        (fuel : ℕ) (path : P)
        → 0 < n
        → length (contents path) < fuel
        → ((e : E) × (slice_file_into_chunks fs n fuel path ≡ some (inl e))
            × ((fs.open_path path ≡ inl e) ⊎ ((file : F) × (fs.read_into n file ≡ inl e))))
          ⊎ ((cs : List (List ℕ)) × (slice_file_into_chunks fs n fuel path ≡ some (inr cs))
              × AllWithin n cs
              × (join cs ≡ contents path))
    unfolding slice_file_into_chunks
    slice_file_into_chunks-ends fuel path positive enough = elim (Sum-cases (fs.open_path path)) [
      | inl (e, fails) ↦ inl (e, rw (slice_file_into_chunks, fails) refl, inl fails)
      | inr (file, opened) ↦
          let same = reader.opens path file opened in
          elim (slice_from-Sliced fuel file positive (rw same enough)) [
            | inl (e, f, stops, fails) ↦
                inl (e, rw (slice_file_into_chunks, opened) stops, inr (f, fails))
            | inr (cs, stops, within, whole) ↦
                inr (cs, rw (slice_file_into_chunks, opened) stops, within, rw same at whole)
          ]
    ]
