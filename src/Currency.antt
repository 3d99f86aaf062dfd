-- ===== src/Currency.antt =====
-- The currency of the runtime (`ReservableCurrency` of frame-support, which pallet-balances
-- implements) is not part of the repository: its ledger and its operations are a parameter, and
-- its documented behaviour is the record `IsReservable`.
pub mod Ledger
use arthneura_core.Base.{ℕ, ◌+◌, ◌-◌, ◌≤◌, ◌<◌, ◌≡◌, Option, none, some, ◌==◌, if◌then◌else◌, min}

-- The operations that the pallets call, on a ledger of type `B`. An operation that takes as much
-- as it can returns the part that it could not take.
pub record Currency (B : Type 0) : Type 0 where
  pub free : B → ℕ → ℕ
  pub reserved : B → ℕ → ℕ
  -- `reserve(who, value)`; `none` is its error.
  pub reserve : ℕ → ℕ → B → Option B
  -- `unreserve(who, value)`
  pub unreserve : ℕ → ℕ → B → B × ℕ
  -- `slash_reserved(who, value)`, the imbalance dropped
  pub slash_reserved : ℕ → ℕ → B → B × ℕ
  -- `repatriate_reserved(slashed, beneficiary, value, BalanceStatus::Free)`; `none` is its error.
  pub repatriate_reserved : ℕ → ℕ → ℕ → B → Option (B × ℕ)

-- What the documentation of `ReservableCurrency` says of them.
pub record IsReservable {B : Type 0} (c : Currency B) : Type 0 where
  -- "If the free balance is lower than `value`, no funds are moved and an `Err` is returned."
  pub reserve-none : (who v : ℕ) (b : B) → c.free b who < v → c.reserve who v b ≡ none
  -- "Moves `value` from balance to reserved balance."
  pub reserve-covered : (who v : ℕ) (b t : B) → c.reserve who v b ≡ some t → v ≤ c.free b who
  pub free-reserve :
      (who v a : ℕ) (b t : B)
      → c.reserve who v b ≡ some t
      → c.free t a ≡ (if who == a then c.free b a - v else c.free b a)
  pub reserved-reserve :
      (who v a : ℕ) (b t : B)
      → c.reserve who v b ≡ some t
      → c.reserved t a ≡ (if who == a then c.reserved b a + v else c.reserved b a)
  -- "Moves up to `value` from reserved balance to free balance. This cannot fail."
  pub free-unreserve :
      (who v a : ℕ) (b : B)
      → c.free (c.unreserve who v b).0 a
        ≡ (if who == a then c.free b a + min v (c.reserved b a) else c.free b a)
  pub reserved-unreserve :
      (who v a : ℕ) (b : B)
      → c.reserved (c.unreserve who v b).0 a
        ≡ (if who == a then c.reserved b a - v else c.reserved b a)
  -- "Deducts up to `value` from reserved balance of `who`. This cannot fail."
  pub free-slash_reserved :
      (who v a : ℕ) (b : B) → c.free (c.slash_reserved who v b).0 a ≡ c.free b a
  pub reserved-slash_reserved :
      (who v a : ℕ) (b : B)
      → c.reserved (c.slash_reserved who v b).0 a
        ≡ (if who == a then c.reserved b a - v else c.reserved b a)
  -- "If the reserve balance is less than `value`, then a non-zero second item is returned."
  pub slash_reserved-remaining :
      (who v : ℕ) (b : B) → (c.slash_reserved who v b).1 ≡ v - c.reserved b who
  -- "Moves up to `value` from reserved balance of `slashed` to balance of `beneficiary`."
  pub free-repatriate_reserved :
      (slashed beneficiary v a : ℕ) (b t : B) (left : ℕ)
      → c.repatriate_reserved slashed beneficiary v b ≡ some (t, left)
      → c.free t a
        ≡ (if beneficiary == a then c.free b a + min v (c.reserved b slashed) else c.free b a)
  pub reserved-repatriate_reserved :
      (slashed beneficiary v a : ℕ) (b t : B) (left : ℕ)
      → c.repatriate_reserved slashed beneficiary v b ≡ some (t, left)
      → c.reserved t a ≡ (if slashed == a then c.reserved b a - v else c.reserved b a)
