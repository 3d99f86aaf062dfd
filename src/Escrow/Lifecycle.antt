-- ===== src/Escrow/Lifecycle.antt =====
-- The life of an escrow record (pallets/pallet-escrow/src/lib.rs): `Locked`, then one of two
-- terminal states, with the terms of the deal fixed when it is locked.
use arthneura_core.Base.{
  ℕ, ◌≡◌, refl, inl, inr, true, false, some, List, [], ◌∷◌, arith, ◌==◌, Bool-cases, Option-cases,
}
use arthneura_core.Base.Map.{Map, lookup, insert, lookup-insert}
use arthneura_core.Errors.{escrow_already_exists, escrow_not_locked}
use arthneura_core.Frame.{Result, ok, err, escrow, committed}
use arthneura_core.Currency.{Currency}
use arthneura_core.Escrow.{
  Escrow, EscrowRecord, EscrowStatus, locked, released, refunded, is_locked, lock, release, refund,
}

-- A call of one of the three entry points, with the block at which it runs.
pub data Call : Type 0 where
  locks : ℕ → ℕ → ℕ → ℕ → ℕ → Call
  releases : ℕ → Call
  refunds : ℕ → Call

-- What may become of a record: it stays, or it leaves `Locked` with its terms unchanged.
pub data Becomes (r : EscrowRecord) : EscrowRecord → Type 0 where
  same : {r' : EscrowRecord} → r' ≡ r → Becomes r r'
  closed :
      {r' : EscrowRecord} (outcome : EscrowStatus)
      → r.status ≡ locked
      → is_locked outcome ≡ false
      → r' ≡ record r { status = outcome }
      → Becomes r r'

Becomes-trans : {r r' r'' : EscrowRecord} → Becomes r r' → Becomes r' r'' → Becomes r r''
Becomes-trans (same e) (same e') = same (ground arith)
Becomes-trans (same e) (closed o h k e') = closed o (ground arith) k (ground arith)
Becomes-trans (closed o h k e) (same e') = closed o h k (ground arith)
Becomes-trans (closed o h k e) (closed o' h' k' e') = absurd (ground arith)

is_locked-eq : (st : EscrowStatus) → is_locked st ≡ true → st ≡ locked
is_locked-eq locked h = refl
is_locked-eq released h = cc
is_locked-eq refunded h = cc

-- Overwriting a record by what it may become keeps every record on its path.
insert-Becomes :
    (id j : ℕ) (r r0 r1 : EscrowRecord) (m : Map EscrowRecord)
    → lookup j m ≡ some r0
    → Becomes r0 r1
    → lookup id m ≡ some r
    → (r' : EscrowRecord) × (lookup id (insert j r1 m) ≡ some r') × Becomes r r'
insert-Becomes id j r r0 r1 m h b e = elim (Bool-cases (j == id)) [
  | inl hit ↦
      (r1, rw (lookup-insert, hit), let same_record : r ≡ r0 = ground arith in rw same_record b)
  | inr miss ↦ (r, rw (lookup-insert, miss) e, same refl)
]

module _ {B : Type 0} (c : Currency B) where
  pub call : Call → Escrow B → Result (Escrow B)
  call (locks now id payer payee amount) s = lock c now id payer payee amount s
  call (releases id) s = release c id s
  call (refunds id) s = refund c id s

  pub run : List Call → Escrow B → Escrow B
  run [] s = s
  run (k ∷ ks) s = run ks (committed s (call k s))

  call-Becomes :
      (k : Call) (id : ℕ) (r : EscrowRecord) (s : Escrow B)
      → lookup id s.escrows ≡ some r
      → (r' : EscrowRecord) × (lookup id (committed s (call k s)).escrows ≡ some r') × Becomes r r'
  unfolding call lock release refund
  call-Becomes (locks now j payer payee amount) id r s h =
      (r, grind (arith, lookup-insert), same refl)
  call-Becomes (releases j) id r s h = elim (Option-cases (lookup j s.escrows)) [
    | inl missing ↦ (r, ground arith, same refl)
    | inr (r0, found) ↦ elim (Bool-cases (is_locked r0.status)) [
      | inl is ↦
          elim (Option-cases (c.repatriate_reserved r0.payer r0.payee r0.amount s.balances)) [
            | inl stuck ↦ (r, ground arith, same refl)
            | inr (moved, e) ↦
                rw (found, is, e, release)
                  (insert-Becomes id j r r0 _ s.escrows found
                    (closed released (is_locked-eq r0.status is) refl refl) h)
          ]
      | inr isnt ↦ (r, ground arith, same refl)
    ]
  ]
  call-Becomes (refunds j) id r s h = elim (Option-cases (lookup j s.escrows)) [
    | inl missing ↦ (r, ground arith, same refl)
    | inr (r0, found) ↦ elim (Bool-cases (is_locked r0.status)) [
      | inl is ↦
          rw (found, is, refund)
            (insert-Becomes id j r r0 _ s.escrows found
              (closed refunded (is_locked-eq r0.status is) refl refl) h)
      | inr isnt ↦ (r, ground arith, same refl)
    ]
  ]

  -- Over any sequence of calls a record that is present stays present with its payer, payee,
  -- amount and block, and its status only ever leaves `Locked` for `Released` or `Refunded`.
  pub run-Becomes :
      (ks : List Call) (id : ℕ) (r : EscrowRecord) (s : Escrow B)
      → lookup id s.escrows ≡ some r
      → (r' : EscrowRecord) × (lookup id (run ks s).escrows ≡ some r') × Becomes r r'
  unfolding run
  run-Becomes [] id r s h = (r, h, same refl)
  run-Becomes (k ∷ ks) id r s h =
      let (r', h', b) = call-Becomes k id r s h in
      let (r'', h'', b') = run-Becomes ks id r' (committed s (call k s)) h' in
      (r'', h'', Becomes-trans b b')

  -- A release that succeeds happens once: afterwards the record is `Released` on the same terms,
  -- and a second release, a refund and a new lock of the same id are refused.
  pub release_once :
      (id now payer payee amount : ℕ) (r : EscrowRecord) (s t : Escrow B)
      → lookup id s.escrows ≡ some r
      → release c id s ≡ ok t
      → (lookup id t.escrows ≡ some (record r { status = released }))
        × (release c id t ≡ err (escrow escrow_not_locked))
        × (refund c id t ≡ err (escrow escrow_not_locked))
        × (lock c now id payer payee amount t ≡ err (escrow escrow_already_exists))
  unfolding release refund lock
  release_once id now payer payee amount r s t h e = grind (arith, lookup-insert)
