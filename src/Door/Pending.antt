-- ===== src/Door/Pending.antt =====
-- The `HashMap` of offchain-agent-registry/src/bin/register-door.rs: what is pending, by its token, each token
-- once; and the tokens, `format!("p{}", pending.len())`.
use arthneura_core.Base.{
  ℕ, zero, suc, ◌+◌, ◌/◌, ◌%◌, Option, none, some, List, [], ◌∷◌, ltb, if◌then◌else◌,
}
use arthneura_core.Identity.{same}

abbrev pub PendingMap : Type 0 → Type 0
PendingMap P = List (List ℕ × P)

module _ {P : Type 0} where
  unfoldable pub lookup : List ℕ → PendingMap P → Option P
  lookup t [] = none
  lookup t ((u, p) ∷ rest) = if same u t then some p else lookup t rest

  -- `HashMap::insert` replaces what a token stood for.
  unfoldable pub insert : List ℕ → P → PendingMap P → PendingMap P
  insert t q [] = (t, q) ∷ []
  insert t q ((u, p) ∷ rest) = if same u t then (u, q) ∷ rest else (u, p) ∷ insert t q rest

  unfoldable pub remove : List ℕ → PendingMap P → PendingMap P
  remove t [] = []
  remove t ((u, p) ∷ rest) = if same u t then rest else (u, p) ∷ remove t rest

-- A number in decimal form before `rest`; `fuel` is more than its number of digits.
unfoldable pub decimal : ℕ → ℕ → List ℕ → List ℕ
decimal zero n rest = rest
decimal (suc fuel) n rest =
    let more = decimal fuel (n / 10) ((48 + n % 10) ∷ rest) in
    if ltb n 10 then (48 + n) ∷ rest else more

unfoldable pub token : ℕ → List ℕ
unfolding decimal
token n = 112 ∷ decimal (suc n) n []
