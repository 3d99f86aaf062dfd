-- ===== src/AgentRegistry/Weights.antt =====
-- The weights of pallets/pallet-agent-registry/src/lib.rs: the weights charged for the extrinsics,
-- their composition from reads and writes, and the constants that mirror them in tests.
use arthneura_core.Base.{ℕ, ◌+◌, ◌*◌, ◌≡◌, refl, min}

-- `Weight`: its two components are `u64`.
pub record Weight : Type 0 where
  pub ref_time : ℕ
  pub proof_size : ℕ

abbrev u64_max : ℕ
u64_max = 18446744073709551615

-- `Weight::saturating_add`
abbrev add : Weight → Weight → Weight
add a b = record {
  ref_time = min (a.ref_time + b.ref_time) u64_max;
  proof_size = min (a.proof_size + b.proof_size) u64_max;
}

abbrev from_parts : ℕ → ℕ → Weight
from_parts ref_time proof_size = record { ref_time = ref_time; proof_size = proof_size }

-- The methods of the trait `WeightInfo`.
pub data WeightInfo : Type 0 where
  register_agent : WeightInfo
  update_profile : WeightInfo
  set_agent_status : WeightInfo
  give_star : ℕ → ℕ → WeightInfo
  remove_star : ℕ → ℕ → WeightInfo
  deregister_agent : ℕ → WeightInfo

-- `impl WeightInfo for SubstrateWeight<T>`
unfoldable pub substrate_weight : WeightInfo → Weight
substrate_weight register_agent =
    add
      (add (add (from_parts 10000 0) (from_parts (25000000 * 6) 0)) (from_parts (100000000 * 3) 0))
      (from_parts 300000000 0)
substrate_weight update_profile =
    add (add (from_parts 8000 0) (from_parts 25000000 0)) (from_parts 100000000 0)
substrate_weight set_agent_status =
    add (add (from_parts 6000 0) (from_parts (25000000 * 2) 0)) (from_parts (100000000 * 2) 0)
substrate_weight (give_star giver_did receiver) =
    add (add (from_parts 8000 0) (from_parts (25000000 * 4) 0)) (from_parts (100000000 * 2) 0)
substrate_weight (remove_star giver_did receiver) =
    add (add (from_parts 8000 0) (from_parts (25000000 * 3) 0)) (from_parts (100000000 * 2) 0)
substrate_weight (deregister_agent did) =
    add (add (from_parts 6000 0) (from_parts (25000000 * 3) 0)) (from_parts (100000000 * 3) 0)

-- `impl WeightInfo for ()`
unfoldable pub unit_weight : WeightInfo → Weight
unit_weight register_agent = from_parts 750010000 0
unit_weight update_profile = from_parts 125008000 0
unit_weight set_agent_status = from_parts 250006000 0
unit_weight (give_star giver_did receiver) = from_parts 300008000 0
unit_weight (remove_star giver_did receiver) = from_parts 275008000 0
unit_weight (deregister_agent did) = from_parts 375006000 0

-- For every extrinsic the weight that tests and the runtime use is the one composed from its reads and
-- writes.
pub unit_weight-eq-substrate_weight : (x : WeightInfo) → unit_weight x ≡ substrate_weight x
unfolding unit_weight substrate_weight
unit_weight-eq-substrate_weight register_agent = refl
unit_weight-eq-substrate_weight update_profile = refl
unit_weight-eq-substrate_weight set_agent_status = refl
unit_weight-eq-substrate_weight (give_star giver_did receiver) = refl
unit_weight-eq-substrate_weight (remove_star giver_did receiver) = refl
unit_weight-eq-substrate_weight (deregister_agent did) = refl
