-- ===== src/Runtime/Adapters.antt =====
-- What the adapters of runtime/src/adapters/ do to the escrow records when they succeed.
use arthneura_core.Base.{ℕ, ◌≡◌, refl, inl, inr, true, none, some, arith}
use arthneura_core.Base.Map.{lookup, insert}
use arthneura_core.Frame.{ok, Result-cases}
use arthneura_core.Currency.{Currency}
use arthneura_core.Escrow.{EscrowRecord, released, refunded, is_locked}
use arthneura_core.Escrow
use arthneura_core.Escrow.Outcome.{new_record, lock-ok, release-ok, refund-ok}
use arthneura_core.Escrow.Solvency.{refunded_state}
use arthneura_core.Runtime.{
  World, escrow_part, with_escrow, lock, release, refund, penalize_provider,
  penalize_false_disputer,
}

module _ {B : Type 0} (c : Currency B) where
  pub lock-escrows :
      (now id payer payee amount : ℕ) (w w' : World B)
      → lock c now id payer payee amount w ≡ ok w'
      → (lookup id w.escrows ≡ none)
        × (w'.escrows ≡ insert id (new_record now payer payee amount) w.escrows)
  unfolding lock
  lock-escrows now id payer payee amount w w' e =
      elim (Result-cases (Escrow.lock c now id payer payee amount (escrow_part w))) [
        | inl (x, refused) ↦ absurd (ground arith)
        | inr (t, held) ↦
            let (b, fresh, _, done) = lock-ok c now id payer payee amount (escrow_part w) t held in
            (fresh, ground arith)
      ]

  pub release-escrows :
      (id : ℕ) (w w' : World B)
      → release c id w ≡ ok w'
      → (r : EscrowRecord) × (lookup id w.escrows ≡ some r)
        × (is_locked r.status ≡ true)
        × (w'.escrows ≡ insert id (record r { status = released }) w.escrows)
  unfolding release
  release-escrows id w w' e = elim (Result-cases (Escrow.release c id (escrow_part w))) [
    | inl (x, refused) ↦ absurd (ground arith)
    | inr (t, paid) ↦
        let (r, b, _, found, is, _, done) = release-ok c id (escrow_part w) t paid in
        (r, found, is, ground arith)
  ]

  pub refund-escrows :
      (id : ℕ) (w w' : World B)
      → refund c id w ≡ ok w'
      → (r : EscrowRecord) × (lookup id w.escrows ≡ some r)
        × (is_locked r.status ≡ true)
        × (w'.escrows ≡ insert id (record r { status = refunded }) w.escrows)
  unfolding refund
  refund-escrows id w w' e = elim (Result-cases (Escrow.refund c id (escrow_part w))) [
    | inl (x, refused) ↦ absurd (ground arith)
    | inr (t, paid) ↦
        let (r, found, is, done) = refund-ok c id (escrow_part w) t paid in
        (r, found, is, ground arith)
  ]

  -- A locked escrow is always refunded when that is asked for.
  pub refund-succeeds :
      (id : ℕ) (r : EscrowRecord) (w : World B)
      → lookup id w.escrows ≡ some r
      → is_locked r.status ≡ true
      → refund c id w ≡ ok (with_escrow w (refunded_state c id r (escrow_part w)))
  unfolding refund Escrow.refund
  refund-succeeds id r w found is = ground arith

  pub penalize_provider-escrows :
      (did : ℕ) (w : World B) → (penalize_provider c did w).escrows ≡ w.escrows
  unfolding penalize_provider
  penalize_provider-escrows did w = refl

  pub penalize_false_disputer-escrows :
      (did : ℕ) (w : World B) → (penalize_false_disputer c did w).escrows ≡ w.escrows
  unfolding penalize_false_disputer
  penalize_false_disputer-escrows did w = refl
