-- ===== src/AgentRegistry/Tests.antt =====
-- The agent registry (pallets/pallet-agent-registry/src/lib.rs) on concrete inputs: accounts 1 and 2
-- register the agents 11 and 12 at block 100, each for a deposit of 100.
use arthneura_core.Base.{
  ℕ, ◌+◌, ◌-◌, ◌*◌, ◌≡◌, ◌≢◌, refl, true, none, some, List, [], ◌∷◌, arith, min, u32_max, length,
  ltb,
}
use mathlib.Core.Logic.{◌↔◌}
use arthneura_core.Base.Map.{lookup, insert, remove, get2, total}
use arthneura_core.Base.Bytes.{ascii}
use arthneura_core.Frame.{signed, ok, committed}
use arthneura_core.Currency.Ledger.{Ledger, ledger, ledger-IsReservable}
use arthneura_core.AgentRegistry.{
  AgentProfile, Registry, Config, System, Crypto, active, revoked, ml_dsa65, contains,
  register_agent, give_star, remove_star, deregister_agent, slash_reputation, add_strike,
  slash_reputation_for_guilty_delivery,
}
use arthneura_core.AgentRegistry.Outcome.{StarAllowed, RegistrationAllowed}
use arthneura_core.AgentRegistry.Invariant.{IsValid}
use arthneura_core.AgentRegistry.Calls
use arthneura_core.AgentRegistry.Calls.{
  Call, registers, updates, sets_status, gives, takes_back, deregisters, slashes, punishes, run,
}
use arthneura_core.AgentRegistry.Preserved.{run-IsValid}
use arthneura_core.AgentRegistry.Identity.{SameRecord, run-Keeps_revoked}
use arthneura_core.AgentRegistry.Stars.{give_star_iff, remove-give}
use arthneura_core.AgentRegistry.Strikes.{
  strikes, punish_times, punish_times_cycle, deregister_agent_returns,
}
use arthneura_core.AgentRegistry.Admission.{register_agent_iff}
use arthneura_core.AgentRegistry.Challenge.{challenge-injective}

abbrev rules : Config
rules = record {
  star_cooldown = 1200;
  registration_deposit = 100;
  strike_threshold = 2;
  deposit_slash_per_strike = 10;
}

-- A host whose hash of `"ArthNeura-DID-v1" ++ pubkey` is the length of the whole, and which takes every
-- proof of possession of a key that is not empty.
abbrev host : Crypto
host = record {
  blake2_256 = length;
  is_pubkey = λ bytes. ltb 0 (length bytes);
  is_signature = λ bytes. true;
  verify = λ pubkey message signature. true;
}

abbrev block_100 : System
block_100 = record { block_number = 100; block_hash = λ n. n }

abbrev nobody : Registry Ledger
nobody = record {
  agent_profiles = [];
  controller_agents = [];
  active_agent_count = 0;
  star_givers = [];
  dispute_strikes = [];
  balances = record { free = λ who. 1000; reserved = λ who. 0 };
  events = [];
}

abbrev profile : ℕ → ℕ → AgentProfile
profile did controller = record {
  did = did;
  controller = controller;
  capabilities = 0;
  reputation_score = 3;
  status = active;
  registered_at = 100;
  is_verified = true;
  quantum_scheme = ml_dsa65;
  metadata = [];
  label = [];
}

-- Account 1 controls the agent 11, account 2 the agent 12, and account 3 the agent 13, which is
-- revoked.
abbrev some_agents : Registry Ledger
some_agents = record {
  agent_profiles =
      (11, profile 11 1)
      ∷ (12, profile 12 2)
      ∷ (13, record (profile 13 3) { status = revoked })
      ∷ [];
  controller_agents = (1, 11 ∷ []) ∷ (2, 12 ∷ []) ∷ (3, 13 ∷ []) ∷ [];
  active_agent_count = 2;
  star_givers = [];
  dispute_strikes = [];
  balances = record { free = λ who. 900; reserved = λ who. 100 };
  events = [];
}

nobody-IsValid : IsValid nobody
unfolding total lookup contains
nobody-IsValid = record {
  keyed = tt;
  counted = refl;
  named = λ did p h. cc;
  listed = λ did p h. cc;
  controlled = λ who did h. cc;
  bounded = λ who. omega arith;
}

abbrev a_day : List Call
a_day =
    registers block_100 (signed 1) (5 ∷ []) [] 90 0 [] []
    ∷ registers block_100 (signed 2) (5 ∷ 6 ∷ []) [] 90 0 [] []
    ∷ gives 101 (signed 1) 17 18
    ∷ punishes 18 5
    ∷ deregisters (signed 2) 18
    ∷ []

run-IsValid_example : IsValid (run ledger rules host a_day nobody)
run-IsValid_example = run-IsValid ledger rules host a_day nobody nobody-IsValid (omega arith)

-- Of that day agent 17 is left, listed under account 1, and account 2 has lost nothing: one strike is
-- below the threshold.
a_day_leaves :
    (lookup 1 (run ledger rules host a_day nobody).controller_agents ≡ some (17 ∷ []))
    × (lookup 18 (run ledger rules host a_day nobody).agent_profiles ≡ none)
    × (ledger.free (run ledger rules host a_day nobody).balances 2 ≡ 1000)
unfolding run lookup Calls.call deregister_agent slash_reputation_for_guilty_delivery add_strike
    slash_reputation give_star register_agent insert ascii get2 remove
a_day_leaves = (refl, refl, refl)

run-Keeps_revoked_example :
    (q : AgentProfile) × (lookup 13
        (run ledger rules host
          (gives 101 (signed 1) 11 13 ∷ punishes 13 2 ∷ [])
          some_agents).agent_profiles
      ≡ some q)
    × SameRecord (record (profile 13 3) { status = revoked }) q
unfolding lookup
run-Keeps_revoked_example =
    run-Keeps_revoked ledger rules host (gives 101 (signed 1) 11 13 ∷ punishes 13 2 ∷ []) 13
      (record (profile 13 3) { status = revoked }) some_agents refl refl

register_agent_iff_example :
    ((t : Registry Ledger) × (register_agent ledger rules host block_100
          (signed 1)
          (5 ∷ [])
          []
          90
          0
          []
          []
          some_agents
        ≡ ok t))
    ↔ (RegistrationAllowed host block_100 1 (5 ∷ []) [] 90 some_agents
        × ((b : Ledger) × (ledger.reserve 1 100 some_agents.balances ≡ some b)))
register_agent_iff_example =
    register_agent_iff ledger rules host block_100 1 (5 ∷ []) [] 90 0 [] [] some_agents

give_star_iff_example :
    ((t : Registry Ledger) × (give_star rules 101 (signed 1) 11 12 some_agents ≡ ok t)) ↔ (
      (giver : ℕ) × (p : AgentProfile) × (signed 1 ≡ signed giver)
      × StarAllowed rules 101 giver 11 12 p some_agents)
give_star_iff_example = give_star_iff rules 101 (signed 1) 11 12 some_agents

abbrev starred : Registry Ledger
starred = committed some_agents (give_star rules 101 (signed 1) 11 12 some_agents)

star_given_12 : give_star rules 101 (signed 1) 11 12 some_agents ≡ ok starred
unfolding give_star lookup get2
star_given_12 = refl

star_12_allowed : StarAllowed rules 101 1 11 12 (profile 12 2) some_agents
unfolding contains lookup get2
star_12_allowed = record {
  owned = refl;
  other_agent = omega arith;
  found = refl;
  live = refl;
  other_controller = omega arith;
  cooled = λ h. absurd (omega arith);
}

remove-give_example :
    (t u v : Registry Ledger) × (give_star rules 101 (signed 1) 11 12 some_agents ≡ ok t)
    × (remove_star (signed 1) 11 12 t ≡ ok u)
    × (lookup 12 u.agent_profiles ≡ some (profile 12 2))
    × (get2 0 11 12 u.star_givers ≡ 0)
    × (give_star rules 102 (signed 1) 11 12 u ≡ ok v)
remove-give_example =
    remove-give rules 101 102 1 11 12 (profile 12 2) some_agents (omega arith) star_12_allowed
      (omega arith)

punish_times_cycle_example :
    ((punish_times ledger rules 1 11 5 some_agents).balances ≡ some_agents.balances)
    × ((punish_times ledger rules 2 11 5 some_agents).balances
        ≡ (ledger.slash_reserved 1 10 some_agents.balances).0)
    × (strikes 11 (punish_times ledger rules 2 11 5 some_agents) ≡ 0)
    × (lookup 11 (punish_times ledger rules 2 11 5 some_agents).agent_profiles
        ≡ some (record (profile 11 1) { reputation_score = 3 - 2 * 5 }))
unfolding lookup
punish_times_cycle_example =
    punish_times_cycle ledger rules 1 11 5 (profile 11 1) some_agents refl refl refl (omega arith)

abbrev struck : Registry Ledger
struck = record some_agents { dispute_strikes = (11, 1) ∷ [] }

abbrev left_registry : Registry Ledger
left_registry = committed some_agents (deregister_agent ledger rules (signed 1) 11 some_agents)

deregister_agent_returns_example :
    (ledger.free left_registry.balances 1 ≡ 900 + min 100 100)
    × (ledger.reserved left_registry.balances 1 + min 100 100 ≡ 100)
    × ((who : ℕ)
        → who ≢ 1
        → (ledger.free left_registry.balances who ≡ 900)
          × (ledger.reserved left_registry.balances who ≡ 100))
    × (lookup 11 left_registry.agent_profiles ≡ none)
unfolding lookup deregister_agent
deregister_agent_returns_example =
    deregister_agent_returns ledger ledger-IsReservable rules (signed 1) 11 (profile 11 1)
      some_agents left_registry refl refl

abbrev genesis_hash : ℕ
genesis_hash = 115792089237316195423570985008687907853269984665640564039457584007913129639935

abbrev new_did : ℕ
new_did = 17

challenge-injective_example :
    (genesis_hash ≡ genesis_hash)
    × (new_did ≡ new_did)
    × (new_did ≡ new_did)
    × (u32_max ≡ u32_max)
    × (genesis_hash ≡ genesis_hash)
challenge-injective_example =
    challenge-injective genesis_hash new_did new_did u32_max genesis_hash genesis_hash new_did
      new_did u32_max genesis_hash (omega arith, omega arith, omega arith, omega arith, omega arith)
      (omega arith, omega arith, omega arith, omega arith, omega arith) refl
