-- ===== src/Client/Dispatch.antt =====
-- What the runtime takes a transaction for: the names that runtime/src/lib.rs gives the pallets, and
-- the extrinsics of pallets/pallet-agent-registry/src/lib.rs and pallets/pallet-vector-db/src/lib.rs with
-- the types of their parameters. A transaction that names no extrinsic, or whose values do not fit its
-- parameters, is not dispatched.
use Prim.Native.String.{String}
use text.Mathlib.Text.{◌==◌ as str_eq}
use arthneura_core.Base.{ℕ, Option, none, some, List, [], ◌∷◌, if◌then◌else◌}
use arthneura_core.Frame.{signed}
use arthneura_core.AgentRegistry.{System}
use arthneura_core.AgentRegistry
use arthneura_core.VectorDb
use arthneura_core.Runtime.History.{Extrinsic, trade, agent}
use arthneura_core.Client.{Value, Tx}
use arthneura_core.Client.Arguments.{
  ◌>>=◌, hash, uint, bounded, bounded_hashes, status, max_pubkey_len, max_sig_len, max_label_len,
  max_metadata_len, max_chunk_len, max_proof_depth,
}

-- The extrinsics of pallet-agent-registry, for their numbers of arguments.
unfoldable pub agent_call_1 : ℕ → String → Value → Option AgentRegistry.Calls.Call
agent_call_1 who name a =
    if str_eq name "deregister_agent"
    then (do did ← hash a; some (AgentRegistry.Calls.deregisters (signed who) did))
    else none

unfoldable pub agent_call_2 : ℕ → ℕ → String → Value → Value → Option AgentRegistry.Calls.Call
agent_call_2 now who name a b =
    if str_eq name "set_agent_status"
    then (do
      did ← hash a
      new_status ← status b
      some (AgentRegistry.Calls.sets_status (signed who) did new_status))
    else if str_eq name "give_star"
    then (do
      giver_did ← hash a
      receiver ← hash b
      some (AgentRegistry.Calls.gives now (signed who) giver_did receiver))
    else if str_eq name "remove_star"
    then (do
      giver_did ← hash a
      receiver ← hash b
      some (AgentRegistry.Calls.takes_back (signed who) giver_did receiver))
    else none

unfoldable pub agent_call_4 :
    ℕ → String → Value → Value → Value → Value → Option AgentRegistry.Calls.Call
agent_call_4 who name a b c d =
    if str_eq name "update_profile"
    then (do
      did ← hash a
      capabilities ← uint 64 b
      metadata ← bounded max_metadata_len c
      label ← bounded max_label_len d
      some (AgentRegistry.Calls.updates (signed who) did capabilities metadata label))
    else none

unfoldable pub agent_call_6 :
    System
    → ℕ
    → String
    → Value
    → Value
    → Value
    → Value
    → Value
    → Value
    → Option AgentRegistry.Calls.Call
agent_call_6 sys who name a b c d e f =
    if str_eq name "register_agent"
    then (do
      pubkey ← bounded max_pubkey_len a
      signature ← bounded max_sig_len b
      signed_at_block ← uint 32 c
      capabilities ← uint 64 d
      metadata ← bounded max_metadata_len e
      label ← bounded max_label_len f
      some (
          AgentRegistry.Calls.registers sys (signed who) pubkey signature signed_at_block
            capabilities metadata label))
    else none

unfoldable pub agent_call : System → ℕ → String → List Value → Option AgentRegistry.Calls.Call
unfolding agent_call_1 agent_call_2 agent_call_4 agent_call_6
agent_call sys who name (a ∷ []) = agent_call_1 who name a
agent_call sys who name (a ∷ b ∷ []) = agent_call_2 sys.block_number who name a b
agent_call sys who name (a ∷ b ∷ c ∷ d ∷ []) = agent_call_4 who name a b c d
agent_call sys who name (a ∷ b ∷ c ∷ d ∷ e ∷ f ∷ []) = agent_call_6 sys who name a b c d e f
agent_call sys who name _ = none

-- The extrinsics of pallet-vector-db.
unfoldable pub trade_call_1 : ℕ → ℕ → String → Value → Option VectorDb.Calls.Call
trade_call_1 now who name a =
    if str_eq name "finalize_dispute"
    then (do commitment_id ← hash a; some (VectorDb.Calls.finalizes now (signed who) commitment_id))
    else if str_eq name "expire_commitment"
    then (do commitment_id ← hash a; some (VectorDb.Calls.expires now (signed who) commitment_id))
    else none

unfoldable pub trade_call_2 : ℕ → ℕ → String → Value → Value → Option VectorDb.Calls.Call
trade_call_2 now who name a b =
    if str_eq name "acknowledge_commitment"
    then (do
      commitment_id ← hash a
      consumer_did ← hash b
      some (VectorDb.Calls.acknowledges now (signed who) commitment_id consumer_did))
    else none

unfoldable pub trade_call_4 :
    ℕ → ℕ → String → Value → Value → Value → Value → Option VectorDb.Calls.Call
trade_call_4 now who name a b c d =
    if str_eq name "close_commitment"
    then (do
      commitment_id ← hash a
      consumer_did ← hash b
      final_stream_hash ← hash c
      chunk_count ← uint 64 d
      some (
          VectorDb.Calls.closes now (signed who) commitment_id consumer_did final_stream_hash
            chunk_count))
    else if str_eq name "counter_dispute"
    then (do
      commitment_id ← hash a
      provider_did ← hash b
      chunk_data ← bounded max_chunk_len c
      merkle_proof ← bounded_hashes max_proof_depth d
      some (
          VectorDb.Calls.counters now (signed who) commitment_id provider_did chunk_data
            merkle_proof))
    else none

unfoldable pub trade_call_5 :
    ℕ → ℕ → String → Value → Value → Value → Value → Value → Option VectorDb.Calls.Call
trade_call_5 now who name a b c d e =
    if str_eq name "raise_dispute"
    then (do
      commitment_id ← hash a
      consumer_did ← hash b
      disputed_chunk_index ← uint 64 c
      received_chunk_hash ← hash d
      chunk_count ← uint 64 e
      some (
          VectorDb.Calls.raises now (signed who) commitment_id consumer_did disputed_chunk_index
            received_chunk_hash chunk_count))
    else none

unfoldable pub trade_call_7 :
    ℕ
    → ℕ
    → String
    → Value
    → Value
    → Value
    → Value
    → Value
    → Value
    → Value
    → Option VectorDb.Calls.Call
trade_call_7 now who name a b c d e f g =
    if str_eq name "register_commitment"
    then (do
      provider_did ← hash a
      consumer_did ← hash b
      merkle_root ← hash c
      total_chunks ← uint 64 d
      metadata ← bounded max_metadata_len e
      expires_in_blocks ← uint 32 f
      price ← uint 128 g
      some (
          VectorDb.Calls.registers now (signed who) provider_did consumer_did merkle_root
            total_chunks metadata expires_in_blocks price))
    else none

unfoldable pub trade_call : ℕ → ℕ → String → List Value → Option VectorDb.Calls.Call
unfolding trade_call_1 trade_call_2 trade_call_4 trade_call_5 trade_call_7
trade_call now who name (a ∷ []) = trade_call_1 now who name a
trade_call now who name (a ∷ b ∷ []) = trade_call_2 now who name a b
trade_call now who name (a ∷ b ∷ c ∷ d ∷ []) = trade_call_4 now who name a b c d
trade_call now who name (a ∷ b ∷ c ∷ d ∷ e ∷ []) = trade_call_5 now who name a b c d e
trade_call now who name (a ∷ b ∷ c ∷ d ∷ e ∷ f ∷ g ∷ []) = trade_call_7 now who name a b c d e f g
trade_call now who name _ = none

-- The pallets of the runtime that the clients call.
unfoldable pub dispatch : System → ℕ → Tx → Option Extrinsic
unfolding agent_call trade_call
dispatch sys who tx =
    if str_eq tx.pallet_name "AgentRegistry"
    then (do x ← agent_call sys who tx.call_name tx.args; some (agent x))
    else if str_eq tx.pallet_name "VectorDb"
    then (do x ← trade_call sys.block_number who tx.call_name tx.args; some (trade x))
    else none
