-- ===== src/Escrow/Solvency.antt =====
-- The funds behind the escrows: what the ledger holds in reserve against what the `Locked` records
-- of pallets/pallet-escrow/src/lib.rs promise.
use arthneura_core.Base.{
  ℕ, ◌+◌, ◌≤◌, ◌≡◌, ◌≢◌, true, ◌&&◌, some, arith, ◌∷◌, ◌==◌, ==_refl, if◌then◌else◌,
}
use arthneura_core.Base.Map.{
  Map, Unique, lookup, insert, total, insert-Unique, total-insert, total-insert_new, le-total,
}
use arthneura_core.Frame.{ok}
use arthneura_core.Currency.{Currency, IsReservable}
use arthneura_core.Escrow.Outcome.{new_record, lock-ok, release-ok, refund-ok}
use arthneura_core.Escrow.{
  Escrow, EscrowRecord, released, refunded, is_locked, lock, release, refund, funds_refunded,
}

-- What one record holds of the reserve of `who`.
abbrev pub held : ℕ → EscrowRecord → ℕ
held who r = if is_locked r.status && (r.payer == who) then r.amount else 0

abbrev pub liability : ℕ → Map EscrowRecord → ℕ
liability who = total (held who)

-- Every account has in reserve what its locked escrows hold, besides `other`, which is reserved for
-- other purposes.
pub record IsSolvent {B : Type 0} (c : Currency B) (other : ℕ → ℕ) (s : Escrow B) : Type 0 where
  pub keyed : Unique s.escrows
  pub covered : (who : ℕ) → liability who s.escrows + other who ≤ c.reserved s.balances who

-- The pallet after a refund of the record `r`.
abbrev pub refunded_state : {B : Type 0} → Currency B → ℕ → EscrowRecord → Escrow B → Escrow B
refunded_state c id r s = record {
  escrows = insert id (record r { status = refunded }) s.escrows;
  balances = (c.unreserve r.payer r.amount s.balances).0;
  events = funds_refunded id r.payer r.amount ∷ s.events;
}

module _ {B : Type 0} (c : Currency B) (laws : IsReservable c) (other : ℕ → ℕ) where
  -- A lock that succeeds keeps a solvent pallet solvent, whatever else its accounts have in
  -- reserve.
  pub lock-IsSolvent :
      (now id payer payee amount : ℕ) (s t : Escrow B)
      → IsSolvent c other s
      → lock c now id payer payee amount s ≡ ok t
      → IsSolvent c other t
  lock-IsSolvent now id payer payee amount s t v e =
      let (b, fresh, reserved, done) = lock-ok c now id payer payee amount s t e in
      let r : EscrowRecord = new_record now payer payee amount in
      rw done (record {
        keyed = insert-Unique id r s.escrows v.keyed;
        covered = λ who. ground (
          arith,
          total-insert_new (held who) id r s.escrows fresh,
          laws.reserved-reserve payer amount who s.balances b reserved,
          v.covered who,
        );
      })

  pub release-IsSolvent :
      (id : ℕ) (s t : Escrow B) → IsSolvent c other s → release c id s ≡ ok t → IsSolvent c other t
  release-IsSolvent id s t v e =
      let (r, b, left, found, is, moved, done) = release-ok c id s t e in
      let r' : EscrowRecord = record r { status = released } in
      rw done (record {
        keyed = insert-Unique id r' s.escrows v.keyed;
        covered = λ who. ground (
          arith,
          total-insert (held who) id r' r s.escrows found,
          laws.reserved-repatriate_reserved r.payer r.payee r.amount who s.balances b left moved,
          v.covered who,
        );
      })

  pub refund-IsSolvent :
      (id : ℕ) (s t : Escrow B) → IsSolvent c other s → refund c id s ≡ ok t → IsSolvent c other t
  refund-IsSolvent id s t v e =
      let (r, found, is, done) = refund-ok c id s t e in
      let r' : EscrowRecord = record r { status = refunded } in
      rw done (record {
        keyed = insert-Unique id r' s.escrows v.keyed;
        covered = λ who. ground (
          arith,
          total-insert (held who) id r' r s.escrows found,
          laws.reserved-unreserve r.payer r.amount who s.balances,
          v.covered who,
        );
      })

  -- A locked record is backed by the reserve of its payer.
  pub held_covered :
      (id : ℕ) (r : EscrowRecord) (s : Escrow B)
      → IsSolvent c other s
      → lookup id s.escrows ≡ some r
      → is_locked r.status ≡ true
      → r.amount + other r.payer ≤ c.reserved s.balances r.payer
  held_covered id r s v found is =
      ground (arith, le-total (held r.payer) id r s.escrows found, v.covered r.payer)

  -- Of a solvent pallet, a release that succeeds pays the payee the whole amount out of the payer's
  -- reserve, leaves the other reserves and free balances alone, and stays solvent.
  pub release_pays :
      (id : ℕ) (r : EscrowRecord) (s t : Escrow B)
      → IsSolvent c other s
      → lookup id s.escrows ≡ some r
      → release c id s ≡ ok t
      → (c.free t.balances r.payee ≡ c.free s.balances r.payee + r.amount)
        × (c.reserved t.balances r.payer + r.amount ≡ c.reserved s.balances r.payer)
        × ((who : ℕ) → who ≢ r.payee → c.free t.balances who ≡ c.free s.balances who)
        × ((who : ℕ) → who ≢ r.payer → c.reserved t.balances who ≡ c.reserved s.balances who)
        × IsSolvent c other t
  release_pays id r s t v found e =
      let (r0, b, left, found', is, moved, done) = release-ok c id s t e in
      let same : r0 ≡ r = ground arith in
      let paid : t.balances ≡ b = ground arith in
      let enough : r0.amount + other r0.payer ≤ c.reserved s.balances r0.payer =
        held_covered id r0 s v found' is in
      let free_of = λ (who : ℕ).
        laws.free-repatriate_reserved r0.payer r0.payee r0.amount who s.balances b left moved in
      let reserved_of = λ (who : ℕ).
        laws.reserved-repatriate_reserved r0.payer r0.payee r0.amount who s.balances b left moved in
      rw (← same) (
        rw (paid, free_of r0.payee, ==_refl) (omega arith),
        rw (paid, reserved_of r0.payer, ==_refl) (omega arith),
        λ who ne. ground (arith, free_of who),
        λ who ne. ground (arith, reserved_of who),
        release-IsSolvent id s t v e,
      )

  -- Of a solvent pallet, a locked escrow can always be refunded: the payer gets back the whole
  -- amount, nobody else's balance changes, and the pallet stays solvent.
  pub refund_pays :
      (id : ℕ) (r : EscrowRecord) (s : Escrow B)
      → IsSolvent c other s
      → lookup id s.escrows ≡ some r
      → is_locked r.status ≡ true
      → (t : Escrow B) × (refund c id s ≡ ok t)
        × (c.free t.balances r.payer ≡ c.free s.balances r.payer + r.amount)
        × (c.reserved t.balances r.payer + r.amount ≡ c.reserved s.balances r.payer)
        × ((who : ℕ)
            → who ≢ r.payer
            → (c.free t.balances who ≡ c.free s.balances who)
              × (c.reserved t.balances who ≡ c.reserved s.balances who))
        × IsSolvent c other t
  unfolding refund
  refund_pays id r s v found is =
      let done : refund c id s ≡ ok (refunded_state c id r s) = ground arith in
      let enough : r.amount + other r.payer ≤ c.reserved s.balances r.payer =
        held_covered id r s v found is in
      let free_of = λ (who : ℕ). laws.free-unreserve r.payer r.amount who s.balances in
      let reserved_of = λ (who : ℕ). laws.reserved-unreserve r.payer r.amount who s.balances in
      (
        refunded_state c id r s,
        done,
        rw (free_of r.payer, ==_refl) (omega arith),
        rw (reserved_of r.payer, ==_refl) (omega arith),
        λ who ne. (ground (arith, free_of who), ground (arith, reserved_of who)),
        refund-IsSolvent id s (refunded_state c id r s) v done,
      )
