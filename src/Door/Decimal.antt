-- ===== src/Door/Decimal.antt =====
-- The decimal form of the tokens in offchain-agent-registry/src/bin/register-door.rs: its fuel is enough, since
-- the number is read back from it.
use arthneura_core.Base.{
  ℕ, zero, suc, ◌+◌, ◌*◌, ◌-◌, ◌/◌, ◌%◌, ◌<◌, ◌≤◌, ◌≡◌, sym, ap, ◌∙◌, some, List, [], ◌∷◌, arith,
  inl, inr, ltb, leb, true, false, Bool-cases,
}
use arthneura_core.Door.Pending.{decimal, token}
use arthneura_core.Command.{digits}

less_than : (a b : ℕ) → ltb a b ≡ true → a < b
less_than a b e = ground arith

at_most : (a b : ℕ) → ltb a b ≡ false → b ≤ a
at_most a b e = ground arith

-- Reading a digit that is in place.
digits-digit :
    (limit n : ℕ) (rest : List ℕ)
    → n < limit
    → digits limit (n / 10) ((48 + n % 10) ∷ rest) ≡ digits limit n rest
unfolding digits
digits-digit limit n rest small =
    let value : 10 * (n / 10) + (48 + n % 10 - 48) ≡ n = omega arith in
    let low : leb 48 (48 + n % 10) ≡ true = ground arith in
    let high : leb (48 + n % 10) 57 ≡ true = ground arith in
    let below : ltb n limit ≡ true = ground arith in ground (arith, value, low, high, below)

pub digits-decimal :
    (limit fuel n : ℕ) (rest : List ℕ)
    → n < fuel
    → n < limit
    → digits limit 0 (decimal fuel n rest) ≡ digits limit n rest
unfolding decimal
digits-decimal limit zero n rest enough small = absurd (omega arith)
digits-decimal limit (suc fuel) n rest enough small = elim (Bool-cases (ltb n 10)) [
  | inl last ↦
      let none_left : n / 10 ≡ 0 = omega (arith, less_than n 10 last) in
      let itself : n % 10 ≡ n = omega (arith, less_than n 10 last) in
      rw last (rw (none_left, itself) at (digits-digit limit n rest small))
  | inr more ↦
      let tail =
        digits-decimal limit fuel (n / 10) ((48 + n % 10) ∷ rest) (omega (arith, at_most n 10 more))
          (omega arith) in
      rw more (tail ∙ digits-digit limit n rest small)
]

-- Two tokens are the same only for the same number.
pub token-injective : (m n : ℕ) → token m ≡ token n → m ≡ n
unfolding token digits
token-injective m n e =
    let limit = suc (m + n) in
    let first = digits-decimal limit (suc m) m [] (omega arith) (omega arith) in
    let second = digits-decimal limit (suc n) n [] (omega arith) (omega arith) in
    let form : decimal (suc m) m [] ≡ decimal (suc n) n [] = cc in
    let read : some m ≡ some n = sym first ∙ ap (λ t. digits limit 0 t) form ∙ second in cc
