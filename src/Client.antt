-- ===== src/Client.antt =====
-- What the off-chain clients (offchain-agent-registry/src/lib.rs, offchain-vector-db/src/lib.rs) use of the
-- crate `subxt`: a call is built dynamically, from the names of a pallet and an extrinsic and a list of
-- values, is signed and submitted, and the events of its finalized block are searched by name. The node
-- is a parameter.
pub mod Arguments
pub mod Dispatch
pub mod Chain
pub mod Agents
pub mod Commitments
pub mod Requests
pub mod Decode
pub mod Answer
pub mod AgentAnswers
pub mod TradeAnswers
pub mod Refinement
pub mod Registration
pub mod Delivery
pub mod Defense
mod Tests
use Prim.Native.String.{String}
use text.Mathlib.Text.{◌==◌ as str_eq}
use arthneura_core.Base.{ℕ, Bool, ◌&&◌, Option, none, some, List, [], ◌∷◌, if◌then◌else◌}
use arthneura_core.Base.Bytes.{le_bytes}

-- `subxt::dynamic::Value`, as far as the clients build it. The values inside a variant and a
-- composite are byte arrays.
pub data Value : Type 0 where
  from_bytes : List ℕ → Value
  u128 : ℕ → Value
  unnamed_variant : String → List (List ℕ) → Value
  unnamed_composite : List (List ℕ) → Value

-- `Value::from_bytes` of a `[u8; 32]`.
abbrev pub from_array : ℕ → Value
from_array hash = from_bytes (le_bytes 32 hash)

-- `subxt::dynamic::tx(pallet, call, args)`
pub record Tx : Type 0 where
  pub pallet_name : String
  pub call_name : String
  pub args : List Value

pub record Event : Type 0 where
  pub pallet_name : String
  pub variant_name : String
  pub field_values : List Value

-- A node: the effect of submitting a transaction, signed by an account, and waiting until it is
-- finalized, with its events where it succeeds; and what it says of its chain.
pub record Node (S : Type 0) : Type 0 where
  pub submit : ℕ → Tx → S → S × Option (List Event)
  pub genesis_hash : S → ℕ
  pub at_latest : S → Option (ℕ × ℕ)

-- The errors that every client reports: of the transport and the dispatch, and of an event that is
-- missing.
pub data CallError : Type 0 where
  subxt : CallError
  event_missing : CallError

pub data CallResult {ℓ} (A : Type ℓ) : Type ℓ where
  done : A → CallResult A
  failed : CallError → CallResult A

-- `Ok(…)` in place of the event.
abbrev pub confirmed {ℓ} : {S : Type 0} {A : Type ℓ} → A → S × CallResult Event → S × CallResult A
confirmed a (s, done e) = (s, done a)
confirmed a (s, failed x) = (s, failed x)

-- `events.iter().find(|e| e.pallet_name() == … && e.variant_name() == …)`
unfoldable pub find_event : String → String → List Event → Option Event
find_event pallet variant [] = none
find_event pallet variant (e ∷ events) =
    if str_eq e.pallet_name pallet && str_eq e.variant_name variant
    then some e
    else find_event pallet variant events

module _ {S : Type 0} (node : Node S) where
  -- The part that all the clients share: submit, wait, and find the event.
  unfoldable pub call_and_confirm : ℕ → Tx → String → S → S × CallResult Event
  unfolding find_event
  call_and_confirm signer tx variant s =
      let (s', sent) = node.submit signer tx s in
      elim sent [
        | none ↦ (s', failed subxt)
        | some events ↦ elim (find_event tx.pallet_name variant events) [
          | none ↦ (s', failed event_missing)
          | some e ↦ (s', done e)
        ]
      ]
