-- ===== src/Client/Answer.antt =====
-- What the clients of offchain-agent-registry/src/lib.rs and offchain-vector-db/src/lib.rs report, against
-- what the runtime does with the extrinsic that they mean.
use Prim.Native.String.{String}
use arthneura_core.Base.{ℕ, ◌-◌, zero, suc, ◌≡◌, ap, inl, inr, some, List, [], ◌∷◌, arith, length}
use arthneura_core.Frame.{ok, err, Result-cases}
use arthneura_core.Currency.{Currency}
use arthneura_core.AgentRegistry.{Crypto, Registry, RegistryEvent}
use arthneura_core.AgentRegistry
use arthneura_core.VectorDb.{VectorDb, Hashing, VectorDbEvent}
use arthneura_core.VectorDb
use arthneura_core.Runtime.{World, registry_config}
use arthneura_core.Runtime.History.{Extrinsic, trade, agent}
use arthneura_core.Client.{
  Tx, Event, CallResult, done, failed, subxt, find_event, confirmed, call_and_confirm,
}
use arthneura_core.Client.Dispatch.{dispatch}
use arthneura_core.Client.Chain.{
  Chain, attempt, deposits, submit, runtime_node, gained, agent_event, trade_event,
}

pub gained_one {ℓ} :
    {A : Type ℓ} (x : A) (xs : List A) → gained (length (x ∷ xs) - length xs) (x ∷ xs) ≡ x ∷ []
unfolding gained
gained_one x xs =
    let one : length (x ∷ xs) - length xs ≡ suc zero = omega arith in
    ap (λ n. gained n (x ∷ xs)) one

module _ {B : Type 0} (c : Currency B) (crypto : Crypto) (k : Hashing) where
  -- What a client reports when the node executes the extrinsic `x`.
  unfoldable pub answer : Extrinsic → Chain B → Chain B × CallResult (Unit {0})
  answer x ch = elim (attempt c crypto k x ch.runtime) [
    | err e ↦ (ch, failed subxt)
    | ok t ↦ (record ch { runtime = t }, done tt)
  ]

  -- A transaction that is dispatched as `x`, of which every success deposits the event that the client
  -- looks for.
  pub confirmed-call_and_confirm :
      (who : ℕ) (tx : Tx) (variant : String) (x : Extrinsic) (ch : Chain B)
      → dispatch ch.system who tx ≡ some x
      → ((t : VectorDb (World B))
          → attempt c crypto k x ch.runtime ≡ ok t
          → (e : Event) × (find_event tx.pallet_name variant (deposits c crypto k x ch.runtime t)
              ≡ some e))
      → confirmed tt (call_and_confirm (runtime_node c crypto k) who tx variant ch) ≡ answer x ch
  unfolding answer call_and_confirm submit
  confirmed-call_and_confirm who tx variant x ch named found =
      elim (Result-cases (attempt c crypto k x ch.runtime)) [
        | inl (e, refused) ↦ grind arith
        | inr (t, accepted) ↦ let (e, first) = found t accepted in grind arith
      ]

  -- A transaction that is dispatched as `x`, which succeeds and deposits the event that the client looks
  -- for.
  pub confirmed_event :
      (who : ℕ) (tx : Tx) (variant : String) (x : Extrinsic) (ch : Chain B) (t : VectorDb (World B))
      (e : Event)
      → dispatch ch.system who tx ≡ some x
      → attempt c crypto k x ch.runtime ≡ ok t
      → find_event tx.pallet_name variant (deposits c crypto k x ch.runtime t) ≡ some e
      → call_and_confirm (runtime_node c crypto k) who tx variant ch
        ≡ (record ch { runtime = t }, done e)
  unfolding call_and_confirm submit
  confirmed_event who tx variant x ch t e named accepted found = grind arith

  pub deposits-agent :
      (x : AgentRegistry.Calls.Call) (s t : VectorDb (World B)) (a : Registry B) (e : RegistryEvent)
      → attempt c crypto k (agent x) s ≡ ok t
      → AgentRegistry.Calls.call c registry_config crypto x s.world.agents ≡ ok a
      → a.events ≡ e ∷ s.world.agents.events
      → deposits c crypto k (agent x) s t ≡ agent_event e ∷ []
  unfolding attempt deposits
  deposits-agent x s t a e accepted updated adds =
      let gains : t.world.agents.events ≡ e ∷ s.world.agents.events = ground arith in
      rw (gains, gained_one e s.world.agents.events)

  pub deposits-trade :
      (x : VectorDb.Calls.Call) (s t : VectorDb (World B)) (e : VectorDbEvent)
      → t.events ≡ e ∷ s.events
      → deposits c crypto k (trade x) s t ≡ trade_event e ∷ []
  unfolding deposits
  deposits-trade x s t e gains = rw (gains, gained_one e s.events)
