-- ===== src/AgentRegistry/Calls.antt =====
-- A history of pallets/pallet-agent-registry/src/lib.rs: its extrinsics and the two penalties that
-- the runtime calls, each with what the runtime hands it.
use arthneura_core.Base.{ℕ, List, [], ◌∷◌}
use arthneura_core.Frame.{Origin, Result, ok, committed}
use arthneura_core.Currency.{Currency}
use arthneura_core.AgentRegistry.{
  AgentStatus, Registry, Config, System, Crypto, update_profile, set_agent_status, give_star,
  remove_star, register_agent, deregister_agent, slash_reputation,
  slash_reputation_for_guilty_delivery,
}

pub data Call : Type 0 where
  registers : System → Origin → List ℕ → List ℕ → ℕ → ℕ → List ℕ → List ℕ → Call
  updates : Origin → ℕ → ℕ → List ℕ → List ℕ → Call
  sets_status : Origin → ℕ → AgentStatus → Call
  gives : ℕ → Origin → ℕ → ℕ → Call
  takes_back : Origin → ℕ → ℕ → Call
  deregisters : Origin → ℕ → Call
  slashes : ℕ → ℕ → Call
  punishes : ℕ → ℕ → Call

module _ {B : Type 0} (c : Currency B) (cfg : Config) (k : Crypto) where
  unfoldable pub call : Call → Registry B → Result (Registry B)
  call (registers sys o pubkey signature n capabilities metadata label) s =
      register_agent c cfg k sys o pubkey signature n capabilities metadata label s
  call (updates o did capabilities metadata label) s =
      update_profile o did capabilities metadata label s
  call (sets_status o did new_status) s = set_agent_status o did new_status s
  call (gives now o giver receiver) s = give_star cfg now o giver receiver s
  call (takes_back o giver receiver) s = remove_star o giver receiver s
  call (deregisters o did) s = deregister_agent c cfg o did s
  call (slashes did amount) s = ok (slash_reputation did amount s)
  call (punishes did amount) s = ok (slash_reputation_for_guilty_delivery c cfg did amount s)

  unfoldable pub run : List Call → Registry B → Registry B
  run [] s = s
  run (x ∷ xs) s = run xs (committed s (call x s))
