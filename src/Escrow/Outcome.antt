-- ===== src/Escrow/Outcome.antt =====
-- What a successful call of each entry point of pallets/pallet-escrow/src/lib.rs has found and
-- what it leaves behind.
use arthneura_core.Base.{ℕ, ◌≡◌, true, none, some, ◌∷◌, arith, inl, inr, Option-cases}
use arthneura_core.Base.Map.{lookup, insert}
use arthneura_core.Frame.{ok}
use arthneura_core.Currency.{Currency}
use arthneura_core.Escrow.{
  Escrow, EscrowRecord, locked, released, refunded, is_locked, funds_locked, funds_released,
  funds_refunded, lock, release, refund,
}

abbrev pub new_record : ℕ → ℕ → ℕ → ℕ → EscrowRecord
new_record now payer payee amount = record {
  payer = payer;
  payee = payee;
  amount = amount;
  status = locked;
  locked_at = now;
}

module _ {B : Type 0} (c : Currency B) where
  pub lock-ok :
      (now id payer payee amount : ℕ) (s t : Escrow B)
      → lock c now id payer payee amount s ≡ ok t
      → (b : B) × (lookup id s.escrows ≡ none)
        × (c.reserve payer amount s.balances ≡ some b)
        × (t ≡ record {
          escrows = insert id (new_record now payer payee amount) s.escrows;
          balances = b;
          events = funds_locked id payer payee amount ∷ s.events;
        })
  unfolding lock
  lock-ok now id payer payee amount s t e =
      elim (Option-cases (c.reserve payer amount s.balances)) [
        | inl short ↦ absurd (ground arith)
        | inr (b, r) ↦ (b, ground arith, r, ground arith)
      ]

  pub release-ok :
      (id : ℕ) (s t : Escrow B)
      → release c id s ≡ ok t
      → (r : EscrowRecord) × (b : B) × (left : ℕ) × (lookup id s.escrows ≡ some r)
        × (is_locked r.status ≡ true)
        × (c.repatriate_reserved r.payer r.payee r.amount s.balances ≡ some (b, left))
        × (t ≡ record {
          escrows = insert id (record r { status = released }) s.escrows;
          balances = b;
          events = funds_released id r.payer r.payee r.amount ∷ s.events;
        })
  unfolding release
  release-ok id s t e = elim (Option-cases (lookup id s.escrows)) [
    | inl missing ↦ absurd (ground arith)
    | inr (r, found) ↦
        elim (Option-cases (c.repatriate_reserved r.payer r.payee r.amount s.balances)) [
          | inl stuck ↦ absurd (ground arith)
          | inr ((b, left), moved) ↦ (r, b, left, found, ground arith, moved, ground arith)
        ]
  ]

  pub refund-ok :
      (id : ℕ) (s t : Escrow B)
      → refund c id s ≡ ok t
      → (r : EscrowRecord) × (lookup id s.escrows ≡ some r)
        × (is_locked r.status ≡ true)
        × (t ≡ record {
          escrows = insert id (record r { status = refunded }) s.escrows;
          balances = (c.unreserve r.payer r.amount s.balances).0;
          events = funds_refunded id r.payer r.amount ∷ s.events;
        })
  unfolding refund
  refund-ok id s t e = elim (Option-cases (lookup id s.escrows)) [
    | inl missing ↦ absurd (ground arith)
    | inr (r, found) ↦ (r, found, ground arith, ground arith)
  ]
