-- ===== src/Escrow.antt =====
-- pallets/pallet-escrow/src/lib.rs: funds of a payer held against an escrow id, then moved to the
-- payee or returned. None of the three entry points is an extrinsic: they are called by the pallet
-- that owns the deal, so they take no origin. Account ids and escrow ids are numbers; the block
-- number at which a call runs is an argument.
pub mod Outcome
pub mod Lifecycle
pub mod Solvency
mod Tests
use arthneura_core.Base.{ℕ, Bool, true, false, not, Option, none, some, List, [], ◌∷◌}
use arthneura_core.Base.Map.{Map, lookup, contains_key, insert}
use arthneura_core.Errors.{
  escrow_already_exists, escrow_not_found, escrow_not_locked, insufficient_balance_for_escrow,
}
use arthneura_core.Frame.{Result, ok, err, DispatchError, ◌>>=◌, ◌>>◌, ensure, ok_or}
use arthneura_core.Frame.{currency_error, escrow}
use arthneura_core.Currency.{Currency}

pub data EscrowStatus : Type 0 where
  locked : EscrowStatus
  released : EscrowStatus
  refunded : EscrowStatus

pub record EscrowRecord : Type 0 where
  pub payer : ℕ
  pub payee : ℕ
  pub amount : ℕ
  pub status : EscrowStatus
  pub locked_at : ℕ

pub data EscrowEvent : Type 0 where
  funds_locked : ℕ → ℕ → ℕ → ℕ → EscrowEvent
  funds_released : ℕ → ℕ → ℕ → ℕ → EscrowEvent
  funds_refunded : ℕ → ℕ → ℕ → EscrowEvent

-- The pallet's storage, the ledger of the currency and the events deposited so far, latest first.
pub record Escrow (B : Type 0) : Type 0 where
  pub escrows : Map EscrowRecord
  pub balances : B
  pub events : List EscrowEvent

-- `record.status == EscrowStatus::Locked`
abbrev pub is_locked : EscrowStatus → Bool
is_locked locked = true
is_locked released = false
is_locked refunded = false

module _ {B : Type 0} (c : Currency B) where
  unfoldable pub lock : ℕ → ℕ → ℕ → ℕ → ℕ → Escrow B → Result (Escrow B)
  lock now escrow_id payer payee amount s = do
    ensure (not (contains_key escrow_id s.escrows)) (escrow escrow_already_exists)
    balances ← ok_or (c.reserve payer amount s.balances) (escrow insufficient_balance_for_escrow)
    ok (record {
      escrows =
          insert escrow_id
            (record {
              payer = payer;
              payee = payee;
              amount = amount;
              status = locked;
              locked_at = now;
            })
            s.escrows;
      balances = balances;
      events = funds_locked escrow_id payer payee amount ∷ s.events;
    })

  unfoldable pub release : ℕ → Escrow B → Result (Escrow B)
  release escrow_id s = do
    r ← ok_or (lookup escrow_id s.escrows) (escrow escrow_not_found)
    ensure (is_locked r.status) (escrow escrow_not_locked)
    moved ← ok_or (c.repatriate_reserved r.payer r.payee r.amount s.balances) currency_error
    ok (record {
      escrows = insert escrow_id (record r { status = released }) s.escrows;
      balances = moved.0;
      events = funds_released escrow_id r.payer r.payee r.amount ∷ s.events;
    })

  unfoldable pub refund : ℕ → Escrow B → Result (Escrow B)
  refund escrow_id s = do
    r ← ok_or (lookup escrow_id s.escrows) (escrow escrow_not_found)
    ensure (is_locked r.status) (escrow escrow_not_locked)
    ok (record {
      escrows = insert escrow_id (record r { status = refunded }) s.escrows;
      balances = (c.unreserve r.payer r.amount s.balances).0;
      events = funds_refunded escrow_id r.payer r.amount ∷ s.events;
    })
