-- ===== src/Runtime/History.antt =====
-- A history of the runtime: extrinsics of pallet-vector-db and calls of pallet-agent-registry, in
-- the order of execution. pallet-escrow has no extrinsics.
use arthneura_core.Base.{List, [], ◌∷◌}
use arthneura_core.Frame.{committed}
use arthneura_core.Currency.{Currency}
use arthneura_core.AgentRegistry.{Crypto}
use arthneura_core.AgentRegistry
use arthneura_core.VectorDb.{VectorDb, Hashing}
use arthneura_core.VectorDb
use arthneura_core.Runtime.{World, registry_config, vector_db_config}

pub data Extrinsic : Type 0 where
  trade : VectorDb.Calls.Call → Extrinsic
  agent : AgentRegistry.Calls.Call → Extrinsic

module _ {B : Type 0} (c : Currency B) (crypto : Crypto) (k : Hashing) where
  unfoldable pub step : Extrinsic → VectorDb (World B) → VectorDb (World B)
  step (trade x) s = committed s (VectorDb.Calls.call (vector_db_config c) k x s)
  step (agent x) s = record s {
    world = record (s.world) {
      agents =
          committed s.world.agents
            (AgentRegistry.Calls.call c registry_config crypto x s.world.agents);
    };
  }

  unfoldable pub run : List Extrinsic → VectorDb (World B) → VectorDb (World B)
  run [] s = s
  run (x ∷ xs) s = run xs (step x s)
