-- ===== src/Base/Bytes.antt =====
-- Byte strings: the fixed-width encodings that hash preimages and challenges are put together from.
use Prim.Native.Nat.{ℕ, zero, suc, ◌/◌, ◌%◌, ◌^◌, ◌<◌}
use native.Mathlib.Nat.{pow-suc}
use native.Mathlib.Omega.{arith}
use mathlib.Core.Path.{◌≡◌}
use Prim.Native.String.{String}
use Prim.Native.Char.{code}
use mathlib.Core.List.{List, [], ◌∷◌, ◌++◌}

-- A number as `w` bytes, the least significant first: SCALE's fixed-width integers, and the bytes
-- of the array that a 32-byte key or hash stands for.
unfoldable pub le_bytes : ℕ → ℕ → List ℕ
le_bytes zero n = []
le_bytes (suc w) n = (n % 256) ∷ le_bytes w (n / 256)

-- The bytes of an ASCII literal.
unfoldable pub ascii : String → List ℕ
ascii String.[] = []
ascii (String.◌∷◌ c s) = code c ∷ ascii s

digit : (a b : ℕ) → a % 256 ≡ b % 256 → a / 256 ≡ b / 256 → a ≡ b
digit a b low high = omega arith

-- A prefix that is the same on both sides.
pub append_cancel : (zs xs ys : List ℕ) → (zs ++ xs) ≡ (zs ++ ys) → xs ≡ ys
append_cancel [] xs ys e = e
append_cancel (z ∷ zs) xs ys e = append_cancel zs xs ys (cc)

-- Two numbers that fit in `w` bytes and have the same `w` bytes in front of whatever follows are
-- equal, and so is what follows.
pub le_bytes-append :
    (w a b : ℕ) (xs ys : List ℕ)
    → a < 256 ^ w
    → b < 256 ^ w
    → (le_bytes w a ++ xs) ≡ (le_bytes w b ++ ys)
    → (a ≡ b) × (xs ≡ ys)
unfolding le_bytes
le_bytes-append zero a b xs ys ha hb e = (omega arith, e)
le_bytes-append (suc w) a b xs ys ha hb e =
    let low : a % 256 ≡ b % 256 = cc in
    let rest : (le_bytes w (a / 256) ++ xs) ≡ (le_bytes w (b / 256) ++ ys) = cc in
    let small_a : a / 256 < 256 ^ w = omega (arith, pow-suc 256 w) in
    let small_b : b / 256 < 256 ^ w = omega (arith, pow-suc 256 w) in
    let (high, same) = le_bytes-append w (a / 256) (b / 256) xs ys small_a small_b rest in
    (digit a b low high, same)
