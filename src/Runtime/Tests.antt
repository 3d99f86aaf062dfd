-- ===== src/Runtime/Tests.antt =====
-- The whole runtime on the concrete deal of Runtime/Example.antt.
use arthneura_core.Base.{ℕ, ◌+◌, ◌*◌, ◌≡◌, ◌<◌, ◌≤◌, refl, none, true, some, List, [], ◌∷◌, arith}
use arthneura_core.Base.Map.{lookup, get_or, insert, total, get2}
use arthneura_core.Frame.{signed, ok, committed}
use arthneura_core.Currency.Ledger.{Ledger, ledger, ledger-IsReservable}
use arthneura_core.Escrow.{EscrowRecord, locked, released, refunded, is_locked, funds_released}
use arthneura_core.Escrow
use arthneura_core.Escrow.Outcome.{new_record}
use arthneura_core.Escrow.Solvency.{IsSolvent, liability}
use arthneura_core.AgentRegistry.{AgentProfile, Registry, Crypto, deregister_agent}
use arthneura_core.AgentRegistry
use arthneura_core.VectorDb.{
  VectorCommitment, CommitmentStatus, DisputeRecord, VectorDb, Hashing, pending, active, disputed,
  dispute_resolved, acknowledge_commitment, close_commitment, counter_dispute, finalize_dispute,
  expire_commitment,
}
use arthneura_core.VectorDb
use arthneura_core.VectorDb.Invariant.{at_key}
use arthneura_core.Runtime.{
  World, unit, registry_config, vector_db_config, escrow_part, controller_of, is_active_verified,
  lock, release, refund, penalize_provider, penalize_false_disputer,
}
use arthneura_core.Runtime.History.{Extrinsic, trade, agent, run, step}
use arthneura_core.Runtime.Backing.{Backed, run-Backed, finalize_dispute-succeeds}
use arthneura_core.Runtime.Stranded.{expire_commitment-strands}
use arthneura_core.Runtime.Reserves.{deregister_agent-drains_escrow, release-pays_short}
use arthneura_core.Runtime.Payment.{
  free_of, reserve_of, acknowledge_commitment-charges, close_commitment-pays, counter_dispute-pays,
  finalize_dispute-refunds,
}
use arthneura_core.Runtime.Example.{
  crypto, host, profile, agents, deal, held_record, dispute, pending_runtime, held_world,
  active_runtime, disputed_runtime, nothing_else, disputed_IsValid, pending_Backed, active_Backed,
  disputed_Backed, held_IsSolvent,
}

abbrev a_week : List Extrinsic
a_week =
    trade (VectorDb.Calls.acknowledges 12 (signed 2) 7 12)
    ∷ agent (AgentRegistry.Calls.gives 15 (signed 2) 12 11)
    ∷ trade (VectorDb.Calls.raises 20 (signed 2) 7 12 3 9 8)
    ∷ []

run-Backed_example : Backed (run ledger crypto host a_week pending_runtime)
run-Backed_example = run-Backed ledger crypto host a_week pending_runtime pending_Backed

-- After that week the commitment is disputed and 30 of account 2 are in reserve.
a_week_ends :
    (lookup 7 (run ledger crypto host a_week pending_runtime).vector_commitments
      ≡ some (record (deal disputed) { acknowledged_at = some 12 }))
    × (reserve_of ledger 2 (run ledger crypto host a_week pending_runtime) ≡ 30)
unfolding run step lookup insert VectorDb.Calls.call VectorDb.raise_dispute acknowledge_commitment
    controller_of is_active_verified lock Escrow.lock AgentRegistry.Calls.call
    AgentRegistry.give_star get2
a_week_ends = (refl, refl)

finalize_dispute-succeeds_example :
    (t : VectorDb (World Ledger)) × (r : EscrowRecord) × (finalize_dispute
        (vector_db_config ledger)
        71
        (signed 3)
        7
        disputed_runtime
      ≡ ok t)
    × (lookup 7 t.vector_commitments ≡ some (deal dispute_resolved))
    × (r.amount ≡ 30)
    × (lookup 7 disputed_runtime.world.escrows ≡ some r)
    × (lookup 7 t.world.escrows ≡ some (record r { status = refunded }))
unfolding lookup
finalize_dispute-succeeds_example =
    finalize_dispute-succeeds ledger host 71 3 7 (deal disputed) dispute disputed_runtime
      disputed_IsValid disputed_Backed refl refl refl (omega arith)

expire_commitment-strands_example :
    (t : VectorDb (World Ledger)) × (r : EscrowRecord) × (expire_commitment
        (vector_db_config ledger)
        110
        (signed 3)
        7
        active_runtime
      ≡ ok t)
    × (t.world ≡ held_world)
    × (is_locked r.status ≡ true)
    × (r.amount ≡ 30)
    × ((xs : List Extrinsic) → lookup 7 (run ledger crypto host xs t).world.escrows ≡ some r)
unfolding lookup
expire_commitment-strands_example =
    expire_commitment-strands ledger crypto host 110 3 7 (deal active) active_runtime active_Backed
      refl refl (omega arith)

-- A world in which agent 11 is the only one.
abbrev lone_world : World Ledger
lone_world = record held_world {
  agents = record (agents (λ who. 30)) {
    agent_profiles = (11, profile 11 1) ∷ [];
    controller_agents = (1, 11 ∷ []) ∷ [];
    active_agent_count = 1;
  };
}

lone_IsValid : AgentRegistry.Invariant.IsValid lone_world.agents
unfolding lookup total AgentRegistry.contains
lone_IsValid = record {
  keyed = (refl, tt);
  counted = refl;
  named = at_key 11 _ (λ p h. ground arith) (λ j miss p h. ground arith);
  listed = at_key 11 _ (λ p h. ground arith) (λ j miss p h. ground arith);
  controlled = λ who did.
      at_key 1
        (λ (w : ℕ).
          AgentRegistry.contains did (get_or [] w lone_world.agents.controller_agents) ≡ true
          → (p : AgentProfile) × (lookup did lone_world.agents.agent_profiles ≡ some p)
            × (p.controller ≡ w))
        (λ h. (profile 11 1, ground arith, refl)) (λ j miss h. ground arith) who;
  bounded = at_key 1 _ (omega arith) (λ j miss. ground arith);
}

abbrev acknowledged_runtime : VectorDb (World Ledger)
acknowledged_runtime =
    committed pending_runtime
      (acknowledge_commitment (vector_db_config ledger) 12 (signed 2) 7 12 pending_runtime)

acknowledged_at_12 :
    acknowledge_commitment (vector_db_config ledger) 12 (signed 2) 7 12 pending_runtime
    ≡ ok acknowledged_runtime
unfolding acknowledge_commitment lookup insert controller_of is_active_verified lock Escrow.lock
acknowledged_at_12 = refl

acknowledge_commitment-charges_example :
    (m : VectorCommitment) × (payee : ℕ) × (lookup 7 pending_runtime.vector_commitments ≡ some m)
    × (controller_of pending_runtime.world m.consumer ≡ some 2)
    × (controller_of pending_runtime.world m.provider ≡ some payee)
    × (lookup 7 acknowledged_runtime.world.escrows ≡ some (new_record 12 2 payee m.price))
    × (free_of ledger 2 acknowledged_runtime + m.price ≡ free_of ledger 2 pending_runtime)
    × (reserve_of ledger 2 acknowledged_runtime ≡ reserve_of ledger 2 pending_runtime + m.price)
acknowledge_commitment-charges_example =
    acknowledge_commitment-charges ledger ledger-IsReservable 12 2 7 12 pending_runtime
      acknowledged_runtime acknowledged_at_12

abbrev settled_runtime : VectorDb (World Ledger)
settled_runtime =
    committed active_runtime
      (close_commitment (vector_db_config ledger) 20 (signed 2) 7 12 500 8 active_runtime)

settled_at_20 :
    close_commitment (vector_db_config ledger) 20 (signed 2) 7 12 500 8 active_runtime
    ≡ ok settled_runtime
unfolding close_commitment lookup insert controller_of is_active_verified release Escrow.release
settled_at_20 = refl

close_commitment-pays_example :
    (m : VectorCommitment) × (r : EscrowRecord) × (lookup 7 active_runtime.vector_commitments
      ≡ some m)
    × (lookup 7 active_runtime.world.escrows ≡ some r)
    × (free_of ledger r.payee settled_runtime ≡ free_of ledger r.payee active_runtime + m.price)
    × (reserve_of ledger r.payer settled_runtime + m.price
        ≡ reserve_of ledger r.payer active_runtime)
    × IsSolvent ledger nothing_else (escrow_part settled_runtime.world)
close_commitment-pays_example =
    close_commitment-pays ledger ledger-IsReservable nothing_else 20 7 12 500 8 (signed 2)
      active_runtime settled_runtime held_IsSolvent active_Backed settled_at_20

abbrev countered_runtime : VectorDb (World Ledger)
countered_runtime =
    committed disputed_runtime (
      counter_dispute (vector_db_config ledger) host 60 (signed 1) 7 11 (4 ∷ []) []
        disputed_runtime)

countered_at_60 :
    counter_dispute (vector_db_config ledger) host 60 (signed 1) 7 11 (4 ∷ []) [] disputed_runtime
    ≡ ok countered_runtime
unfolding counter_dispute lookup insert controller_of is_active_verified release Escrow.release
    penalize_false_disputer
countered_at_60 = refl

counter_dispute-pays_example :
    (m : VectorCommitment) × (r : EscrowRecord) × (lookup 7 disputed_runtime.vector_commitments
      ≡ some m)
    × (lookup 7 disputed_runtime.world.escrows ≡ some r)
    × (free_of ledger r.payee countered_runtime ≡ free_of ledger r.payee disputed_runtime + m.price)
    × (reserve_of ledger r.payer countered_runtime + m.price
        ≡ reserve_of ledger r.payer disputed_runtime)
    × IsSolvent ledger nothing_else (escrow_part countered_runtime.world)
counter_dispute-pays_example =
    counter_dispute-pays ledger ledger-IsReservable nothing_else host 60 7 11 (4 ∷ []) [] (signed 1)
      disputed_runtime countered_runtime held_IsSolvent disputed_Backed countered_at_60

abbrev finalized_runtime : VectorDb (World Ledger)
finalized_runtime =
    committed disputed_runtime
      (finalize_dispute (vector_db_config ledger) 71 (signed 3) 7 disputed_runtime)

finalized_at_71 :
    finalize_dispute (vector_db_config ledger) 71 (signed 3) 7 disputed_runtime
    ≡ ok finalized_runtime
unfolding finalize_dispute lookup insert refund Escrow.refund penalize_provider
finalized_at_71 = refl

finalize_dispute-refunds_example :
    (m : VectorCommitment) × (r : EscrowRecord) × (lookup 7 disputed_runtime.vector_commitments
      ≡ some m)
    × (lookup 7 disputed_runtime.world.escrows ≡ some r)
    × (free_of ledger r.payer finalized_runtime ≡ free_of ledger r.payer disputed_runtime + m.price)
finalize_dispute-refunds_example =
    finalize_dispute-refunds ledger ledger-IsReservable nothing_else 71 7 (signed 3)
      disputed_runtime finalized_runtime held_IsSolvent disputed_Backed finalized_at_71

-- Account 2 has its deposit of 100 units in reserve, and 20 units for an escrow; agent 12 has 9 strikes.
abbrev struck_world : World Ledger
struck_world = record held_world {
  agents = record (agents (λ who. 120 * unit)) { dispute_strikes = (12, 9) ∷ [] };
  escrows = (7, record held_record { amount = 20 * unit }) ∷ [];
}

deregister_agent-drains_escrow_example :
    let struck : World Ledger = penalize_provider ledger 12 struck_world in
    (t : Registry Ledger) × (liability 2 struck.escrows ≤ ledger.reserved struck.agents.balances 2)
    × (deregister_agent ledger registry_config (signed 2) 12 struck.agents ≡ ok t)
    × (ledger.free t.balances 2 ≡ 1000 + 100 * unit)
    × (ledger.reserved t.balances 2 + 10 * unit ≡ liability 2 struck.escrows)
unfolding lookup total
deregister_agent-drains_escrow_example =
    deregister_agent-drains_escrow ledger ledger-IsReservable 12 (profile 12 2) struck_world refl
      refl (omega arith) refl (omega arith)

abbrev short_escrow : Escrow.Escrow Ledger
short_escrow = record {
  escrows = (7, held_record) ∷ [];
  balances = record { free = λ who. 0; reserved = λ who. 20 };
  events = [];
}

-- What the payer has goes to the payee.
abbrev short_balances : Ledger
short_balances = elim (ledger.repatriate_reserved 2 1 30 short_escrow.balances) [
  | none ↦ short_escrow.balances
  | some (balances, left) ↦ balances
]

release-pays_short_example :
    (t : Escrow.Escrow Ledger) × (Escrow.release ledger 7 short_escrow ≡ ok t)
    × (ledger.free t.balances 1 ≡ 20)
    × (ledger.free t.balances 1 < 30)
    × (lookup 7 t.escrows ≡ some (record held_record { status = released }))
    × (t.events ≡ funds_released 7 2 1 30 ∷ [])
unfolding lookup
release-pays_short_example =
    release-pays_short ledger ledger-IsReservable 7 held_record short_escrow short_balances 10 refl
      refl (omega arith) refl
