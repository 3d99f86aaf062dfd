-- ===== src/Currency/Ledger.antt =====
-- A ledger that meets `IsReservable`, for examples: every account exists and holds a free and a
-- reserved amount.
use arthneura_core.Base.{ℕ, ◌+◌, ◌-◌, Option, none, some, ◌==◌, ltb, if◌then◌else◌, min, arith}
use arthneura_core.Currency.{Currency, IsReservable}

pub record Ledger : Type 0 where
  pub free : ℕ → ℕ
  pub reserved : ℕ → ℕ

abbrev update : (ℕ → ℕ) → ℕ → ℕ → ℕ → ℕ
update f who v a = if who == a then v else f a

abbrev reserve : ℕ → ℕ → Ledger → Option Ledger
reserve who v b =
    if ltb (b.free who) v
    then none
    else some (record {
      free = update b.free who (b.free who - v);
      reserved = update b.reserved who (b.reserved who + v);
    })

abbrev take_reserved : ℕ → ℕ → Ledger → Ledger × ℕ
take_reserved who v b =
    (record b { reserved = update b.reserved who (b.reserved who - v) }, v - b.reserved who)

abbrev repatriate_reserved : ℕ → ℕ → ℕ → Ledger → Ledger × ℕ
repatriate_reserved slashed beneficiary v b = (
  record (take_reserved slashed v b).0 {
    free = update b.free beneficiary (b.free beneficiary + min v (b.reserved slashed));
  },
  v - b.reserved slashed,
)

abbrev pub ledger : Currency Ledger
ledger = record {
  free = λ b. b.free;
  reserved = λ b. b.reserved;
  reserve = reserve;
  unreserve = λ who. repatriate_reserved who who;
  slash_reserved = take_reserved;
  repatriate_reserved =
      λ slashed beneficiary v b. some (repatriate_reserved slashed beneficiary v b);
}

pub ledger-IsReservable : IsReservable ledger
ledger-IsReservable = record {
  reserve-none = λ who v b h. ground arith;
  reserve-covered = λ who v b t h. ground arith;
  free-reserve = λ who v a b t h. ground arith;
  reserved-reserve = λ who v a b t h. ground arith;
  free-unreserve = λ who v a b. ground arith;
  reserved-unreserve = λ who v a b. ground arith;
  free-slash_reserved = λ who v a b. ground arith;
  reserved-slash_reserved = λ who v a b. ground arith;
  slash_reserved-remaining = λ who v b. ground arith;
  free-repatriate_reserved = λ slashed beneficiary v a b t left h. ground arith;
  reserved-repatriate_reserved = λ slashed beneficiary v a b t left h. ground arith;
}
