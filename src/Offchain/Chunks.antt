-- ===== src/Offchain/Chunks.antt =====
-- The chunks of a payload (offchain-vector-db/src/lib.rs, `register_commitment`): what the pallet's
-- bounds ask of them, and that nothing of the payload is lost.
use arthneura_core.Base.{
  ℕ, zero, suc, ◌<◌, ◌≤◌, ◌≡◌, refl, ap, ◌⊎◌, inl, inr, Bool, true, false, List, [], ◌∷◌, ◌++◌,
  arith, ◌==◌, length, Bool-cases,
}
use mathlib.Core.Path.{subst}
use arthneura_core.Offchain.{
  Prepared, ready, refused, ClientError, fill, byte_chunks, split_lines, trim_return, rows,
  row_chunks, chunks_of, max_chunk_len, max_metadata_len,
}

-- The chunks put together again.
abbrev pub join : List (List ℕ) → List ℕ
join [] = []
join (c ∷ cs) = c ++ join cs

-- Every chunk has a byte, and no more than `MAX_CHUNK_LEN`.
abbrev pub AllSized : List (List ℕ) → Type 0
AllSized [] = Unit
AllSized (c ∷ cs) = (0 < length c) × (length c ≤ max_chunk_len) × AllSized cs

fill-join : (n : ℕ) (xs : List ℕ) → ((fill n xs).0 ++ join (fill n xs).1) ≡ xs
unfolding fill
fill-join n [] = refl
fill-join zero (x ∷ xs) = ap (λ ys. x ∷ ys) (fill-join 1023 xs)
fill-join (suc n) (x ∷ xs) = ap (λ ys. x ∷ ys) (fill-join n xs)

fill-AllSized : (n : ℕ) (xs : List ℕ) → (length (fill n xs).0 ≤ n) × AllSized (fill n xs).1
unfolding fill
fill-AllSized n [] = (omega arith, tt)
fill-AllSized zero (x ∷ xs) =
    let (short, sized) = fill-AllSized 1023 xs in (omega arith, (omega arith, omega arith, sized))
fill-AllSized (suc n) (x ∷ xs) = let (short, sized) = fill-AllSized n xs in (omega arith, sized)

pub Prepared-cases {ℓ} :
    {A : Type ℓ} (r : Prepared A)
    → ((e : ClientError) × (r ≡ refused e)) ⊎ ((a : A) × (r ≡ ready a))
Prepared-cases (ready a) = inr (a, refl)
Prepared-cases (refused e) = inl (e, refl)

rows-AllSized : (ls cs : List (List ℕ)) → rows ls ≡ ready cs → AllSized cs
unfolding rows
rows-AllSized [] cs e = let same : [] ≡ cs = cc in subst AllSized same tt
rows-AllSized (l ∷ ls) cs e = elim (Prepared-cases (rows ls)) [
  | inl (x, failed) ↦ absurd (ground arith)
  | inr (out, done) ↦
      let sized = rows-AllSized ls out done in
      elim (Bool-cases (length (trim_return l) == 0)) [
        | inl blank ↦ let same : out ≡ cs = ground arith in subst AllSized same sized
        | inr full ↦
            let same : (trim_return l ∷ out) ≡ cs = ground arith in
            let small : length (trim_return l) ≤ max_chunk_len = ground arith in
            let positive : 0 < length (trim_return l) = ground arith in
            subst AllSized same (positive, small, sized)
      ]
]

row_chunks-AllSized :
    (payload : List ℕ) (cs : List (List ℕ))
    → row_chunks payload ≡ ready cs
    → (0 < length cs) × AllSized cs
unfolding row_chunks
row_chunks-AllSized payload cs e =
    let lines = (split_lines payload).0 ∷ (split_lines payload).1 in
    elim (Prepared-cases (rows lines)) [
      | inl (x, failed) ↦ absurd (ground arith)
      | inr ([], none_left) ↦ absurd (ground arith)
      | inr (c ∷ out, done) ↦
          let same : (c ∷ out) ≡ cs = ground arith in
          subst (λ z. (0 < length z) × AllSized z) same
            (omega arith, rows-AllSized lines (c ∷ out) done)
    ]

byte_chunks-AllSized :
    (payload : List ℕ)
    → 0 < length payload
    → (0 < length (byte_chunks payload))
      × AllSized (byte_chunks payload)
      × (join (byte_chunks payload) ≡ payload)
unfolding byte_chunks
byte_chunks-AllSized [] full = absurd (omega arith)
byte_chunks-AllSized (x ∷ xs) full =
    let (short, sized) = fill-AllSized 1023 xs in
    (omega arith, (omega arith, omega arith, sized), ap (λ ys. x ∷ ys) (fill-join 1023 xs))

-- The chunks that the client commits to are at least one and each has from 1 to 1024 bytes, as the pallet
-- asks; unless the payload is cut at its lines, they are the payload when they are put together again.
pub chunks_of-AllSized :
    (in_rows : Bool) (payload metadata : List ℕ) (cs : List (List ℕ))
    → chunks_of in_rows payload metadata ≡ ready cs
    → (length metadata ≤ max_metadata_len)
      × (0 < length cs)
      × AllSized cs
      × (in_rows ≡ false → join cs ≡ payload)
unfolding chunks_of
chunks_of-AllSized true payload metadata cs e =
    let cut : row_chunks payload ≡ ready cs = ground arith in
    let (some_rows, sized) = row_chunks-AllSized payload cs cut in
    (ground arith, some_rows, sized, λ h. absurd (cc))
chunks_of-AllSized false payload metadata cs e =
    let same : byte_chunks payload ≡ cs = ground arith in
    let full : 0 < length payload = ground arith in
    let (some_chunks, sized, whole) = byte_chunks-AllSized payload full in
    (ground arith, rw same at some_chunks, subst AllSized same sized, λ h. rw same at whole)
