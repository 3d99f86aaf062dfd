-- ===== src/Client/Chain.antt =====
-- A node that runs the runtime and on which nothing else happens: a transaction is dispatched at the
-- current block, and what it deposits is what the client sees. The names of the events are those of the
-- variants of `Event` in pallets/pallet-agent-registry/src/lib.rs and pallets/pallet-vector-db/src/lib.rs.
use arthneura_core.Base.{ℕ, ◌-◌, zero, suc, Option, none, some, List, [], ◌∷◌, length}
use arthneura_core.Frame.{Result, ok, err, ◌>>=◌}
use arthneura_core.Currency.{Currency}
use arthneura_core.AgentRegistry.{
  Crypto, System, RegistryEvent, agent_registered, agent_profile_updated, agent_status_changed,
  star_given, star_removed, agent_deregistered, reputation_slashed, deposit_slashed,
}
use arthneura_core.AgentRegistry
use arthneura_core.VectorDb.{
  VectorDb, Hashing, VectorDbEvent, commitment_registered, commitment_acknowledged,
  commitment_settled, dispute_raised, dispute_countered, dispute_finalized, commitment_expired,
}
use arthneura_core.VectorDb
use arthneura_core.Runtime.{World, registry_config, vector_db_config}
use arthneura_core.Runtime.History.{Extrinsic, trade, agent}
use arthneura_core.Client.{Event, Node, Tx, from_array}
use arthneura_core.Client.Dispatch.{dispatch}

-- The items that a list has gained at its front.
unfoldable pub gained {ℓ} : {A : Type ℓ} → ℕ → List A → List A
gained zero xs = []
gained (suc n) [] = []
gained (suc n) (x ∷ xs) = x ∷ gained n xs

-- Of the fields of an event, the clients read the first of `CommitmentRegistered`.
abbrev pub agent_event : RegistryEvent → Event
agent_event e = record {
  pallet_name = "AgentRegistry";
  variant_name = elim e [
    | agent_registered did controller ↦ "AgentRegistered"
    | agent_profile_updated did ↦ "AgentProfileUpdated"
    | agent_status_changed did new_status ↦ "AgentStatusChanged"
    | star_given giver receiver ↦ "StarGiven"
    | star_removed giver receiver ↦ "StarRemoved"
    | agent_deregistered did controller ↦ "AgentDeregistered"
    | reputation_slashed did amount new_score ↦ "ReputationSlashed"
    | deposit_slashed did controller amount strikes ↦ "DepositSlashed"
  ];
  field_values = [];
}

abbrev pub trade_event : VectorDbEvent → Event
trade_event e = record {
  pallet_name = "VectorDb";
  variant_name = elim e [
    | commitment_registered id provider consumer root chunks expires_at metadata ↦
        "CommitmentRegistered"
    | commitment_acknowledged id at ↦ "CommitmentAcknowledged"
    | commitment_settled id stream_hash chunks ↦ "CommitmentSettled"
    | dispute_raised id root index received deadline ↦ "DisputeRaised"
    | dispute_countered id verdict ↦ "DisputeCountered"
    | dispute_finalized id verdict provider consumer ↦ "DisputeFinalized"
    | commitment_expired id ↦ "CommitmentExpired"
  ];
  field_values = elim e [
    | commitment_registered id provider consumer root chunks expires_at metadata ↦
        from_array id ∷ []
    | _ ↦ []
  ];
}

abbrev pub map_events {ℓ} : {A : Type ℓ} → (A → Event) → List A → List Event
map_events f [] = []
map_events f (x ∷ xs) = f x ∷ map_events f xs

pub record Chain (B : Type 0) : Type 0 where
  pub system : System
  pub runtime : VectorDb (World B)

module _ {B : Type 0} (c : Currency B) (crypto : Crypto) (k : Hashing) where
  -- An extrinsic, with its error.
  unfoldable pub attempt : Extrinsic → VectorDb (World B) → Result (VectorDb (World B))
  attempt (trade x) s = VectorDb.Calls.call (vector_db_config c) k x s
  attempt (agent x) s = do
    agents ← AgentRegistry.Calls.call c registry_config crypto x s.world.agents
    ok (record s { world = record (s.world) { agents = agents } })

  -- What an extrinsic has deposited in its own pallet.
  unfoldable pub deposits : Extrinsic → VectorDb (World B) → VectorDb (World B) → List Event
  unfolding gained
  deposits (trade x) s t =
      map_events trade_event (gained (length t.events - length s.events) t.events)
  deposits (agent x) s t =
      map_events agent_event
        (gained (length t.world.agents.events - length s.world.agents.events) t.world.agents.events)

  unfoldable pub submit : ℕ → Tx → Chain B → Chain B × Option (List Event)
  unfolding attempt deposits dispatch
  submit who tx ch = elim (dispatch ch.system who tx) [
    | none ↦ (ch, none)
    | some x ↦ elim (attempt x ch.runtime) [
      | err e ↦ (ch, none)
      | ok t ↦ (record ch { runtime = t }, some (deposits x ch.runtime t))
    ]
  ]

  -- The hash of the current block is not known to the runtime before the block is built: the latest
  -- block that a client sees is the one before.
  abbrev pub runtime_node : Node (Chain B)
  runtime_node = record {
    submit = submit;
    genesis_hash = λ ch. ch.system.block_hash 0;
    at_latest =
        λ ch. some (ch.system.block_number - 1, ch.system.block_hash (ch.system.block_number - 1));
  }
