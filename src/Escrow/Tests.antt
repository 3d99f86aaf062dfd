-- ===== src/Escrow/Tests.antt =====
-- The escrow pallet (pallets/pallet-escrow/src/lib.rs) on one ledger: account 1 locks 30 of its 100 for
-- account 2 under the id 7.
use arthneura_core.Base.{ℕ, ◌≡◌, refl, some, [], ◌∷◌, arith, ◌==◌, if◌then◌else◌}
use arthneura_core.Base.Map.{lookup, insert, total}
use arthneura_core.Errors.{insufficient_balance_for_escrow}
use arthneura_core.Frame.{ok, err, escrow, committed}
use arthneura_core.Currency.Ledger.{Ledger, ledger, ledger-IsReservable}
use arthneura_core.Escrow.{Escrow, EscrowRecord, locked, lock, release}
use arthneura_core.Escrow.Lifecycle.{locks, releases, refunds, Becomes, run, run-Becomes}
use arthneura_core.Escrow.Solvency.{IsSolvent, lock-IsSolvent}

abbrev funds : Ledger
funds = record { free = λ who. if who == 1 then 100 else 0; reserved = λ who. 0 }

abbrev fresh_pallet : Escrow Ledger
fresh_pallet = record { escrows = []; balances = funds; events = [] }

abbrev nothing_else : ℕ → ℕ
nothing_else who = 0

abbrev deal : EscrowRecord
deal = record { payer = 1; payee = 2; amount = 30; status = locked; locked_at = 5 }

abbrev held_pallet : Escrow Ledger
held_pallet = committed fresh_pallet (lock ledger 5 7 1 2 30 fresh_pallet)

abbrev paid_pallet : Escrow Ledger
paid_pallet = committed held_pallet (release ledger 7 held_pallet)

fresh_IsSolvent : IsSolvent ledger nothing_else fresh_pallet
unfolding total
fresh_IsSolvent = record { keyed = tt; covered = λ who. omega arith }

locks_7 : lock ledger 5 7 1 2 30 fresh_pallet ≡ ok held_pallet
unfolding lock lookup insert
locks_7 = refl

too_poor : lock ledger 5 8 1 2 71 held_pallet ≡ err (escrow insufficient_balance_for_escrow)
unfolding lock lookup insert
too_poor = refl

deal_held : lookup 7 held_pallet.escrows ≡ some deal
unfolding lock lookup insert
deal_held = refl

releases_7 : release ledger 7 held_pallet ≡ ok paid_pallet
unfolding lock release lookup insert
releases_7 = refl

held_IsSolvent : IsSolvent ledger nothing_else held_pallet
held_IsSolvent =
    lock-IsSolvent ledger ledger-IsReservable nothing_else 5 7 1 2 30 fresh_pallet held_pallet
      fresh_IsSolvent locks_7

run-Becomes_example :
    (r' : EscrowRecord) × (lookup 7
        (run ledger (refunds 7 ∷ releases 7 ∷ locks 9 8 1 3 10 ∷ []) held_pallet).escrows
      ≡ some r')
    × Becomes deal r'
run-Becomes_example =
    run-Becomes ledger (refunds 7 ∷ releases 7 ∷ locks 9 8 1 3 10 ∷ []) 7 deal held_pallet deal_held
