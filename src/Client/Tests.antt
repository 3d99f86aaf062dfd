-- ===== src/Client/Tests.antt =====
-- The clients on the deal of Runtime/Example.antt.
use arthneura_core.Base.{
  ℕ, ◌≡◌, ◌≢◌, refl, true, false, none, some, List, [], ◌∷◌, ◌-◌, ◌==◌, if◌then◌else◌, arith,
  length,
}
use arthneura_core.Base.Map.{lookup, insert}
use arthneura_core.Currency.Ledger.{Ledger, ledger}
use arthneura_core.AgentRegistry.{Registry, derive_did}
use arthneura_core.AgentRegistry.Outcome.{new_profile}
use arthneura_core.VectorDb.{
  VectorDb, VectorCommitment, disputed, dispute_resolved, claimant_unsubstantiated,
  commitment_id_of,
}
use arthneura_core.VectorDb
use arthneura_core.VectorDb.Outcome.{Acts, new_commitment}
use arthneura_core.Runtime.{
  World, registry_config, vector_db_config, controller_of, is_active_verified, lock, release,
}
use arthneura_core.Escrow
use arthneura_core.Offchain.{
  build_merkle_tree, counter_arguments, chunks_of, byte_chunks, fill, leaf_hashes,
  generate_inclusion_proof,
}
use arthneura_core.Offchain.Example.{no_faults, no_faults-TakesWrites, flat_trees, flat-IsComplete}
use arthneura_core.Offchain.Store.{Store, load_all_chunks, load_chunk}
use arthneura_core.Runtime.Example.{
  crypto, host, agents, deal, dispute, pending_runtime, disputed_runtime,
}
use arthneura_core.Client.{done, failed, subxt}
use arthneura_core.Client.Agents.{Signing, register_agent}
use arthneura_core.Client.Chain.{Chain, runtime_node, attempt}
use arthneura_core.Client.Requests.{acknowledgement, finalization, extrinsic_of, send}
use arthneura_core.Client.Answer.{answer}
use arthneura_core.Client.Refinement.{send-extrinsic_of}
use arthneura_core.Client.Registration.{Agrees, register_agent-done}
use arthneura_core.Client.Commitments.{complete, register_commitment, counter_dispute}
use arthneura_core.Client.Defense.{counter_dispute-complete}
use arthneura_core.Client.Delivery.{register_commitment-complete}

abbrev at_block : ℕ → VectorDb (World Ledger) → Chain Ledger
at_block n runtime = record {
  system = record { block_number = n; block_hash = λ m. m };
  runtime = runtime;
}

send-extrinsic_of_example :
    send
      (runtime_node ledger crypto host)
      length
      2
      (acknowledgement 7 12)
      (at_block 12 pending_runtime)
    ≡ answer ledger crypto host
        (extrinsic_of (at_block 12 pending_runtime).system 2 (acknowledgement 7 12))
        (at_block 12 pending_runtime)
send-extrinsic_of_example =
    send-extrinsic_of ledger crypto host length 2 (acknowledgement 7 12)
      (at_block 12 pending_runtime) (omega arith, omega arith)

-- The consumer acknowledges, and too early a request to finalize a dispute fails.
acknowledged :
    (answer ledger crypto host
      (extrinsic_of (at_block 12 pending_runtime).system 2 (acknowledgement 7 12))
      (at_block 12 pending_runtime)).1
    ≡ done tt
unfolding answer extrinsic_of attempt lookup insert VectorDb.Calls.call
    VectorDb.acknowledge_commitment controller_of is_active_verified lock Escrow.lock
acknowledged = refl

too_early :
    answer ledger crypto host
      (extrinsic_of (at_block 60 disputed_runtime).system 3 (finalization 7))
      (at_block 60 disputed_runtime)
    ≡ (at_block 60 disputed_runtime, failed subxt)
unfolding answer extrinsic_of attempt lookup VectorDb.Calls.call VectorDb.finalize_dispute
too_early = refl

-- A key is its seed, a signature is empty.
abbrev keys : Signing
keys = record {
  verifying_key = λ seed. seed ∷ [];
  to_bytes = λ seed. seed ∷ [];
  sign = λ seed message. [];
}

keys-Agrees : Agrees crypto keys
keys-Agrees = record {
  key_fits = λ seed. omega arith;
  key_parses = λ seed. refl;
  signature_fits = λ seed message. omega arith;
  signature_parses = λ seed message. refl;
  verifies = λ seed message. refl;
}

-- What `reserve` makes of the balances.
abbrev reserved_for : ℕ → ℕ → Ledger
reserved_for who v = record {
  free = λ z. if who == z then 1000000000000000 - v else 1000000000000000;
  reserved = λ z. if who == z then v else 0;
}

abbrev newcomers : VectorDb (World Ledger)
newcomers = record pending_runtime {
  world = record {
    agents = record (agents (λ who. 0)) {
      balances = record { free = λ z. 1000000000000000; reserved = λ z. 0 };
    };
    escrows = [];
    escrow_events = [];
  };
}

register_agent-done_example :
    (t : Registry Ledger) × (register_agent
        (runtime_node ledger crypto host)
        length
        keys
        5
        3
        1
        []
        []
        (at_block 12 newcomers)
      ≡ (
        record (at_block 12 newcomers) {
          runtime = record newcomers { world = record (newcomers.world) { agents = t } };
        },
        done (record { did = derive_did crypto (5 ∷ []); signing_key_bytes = 5 ∷ [] }),
      ))
    × (lookup (derive_did crypto (5 ∷ [])) t.agent_profiles
        ≡ some (new_profile (derive_did crypto (5 ∷ [])) 3 1 12 [] []))
    × (t.balances ≡ reserved_for 3 registry_config.registration_deposit)
unfolding lookup derive_did arthneura_core.Base.Bytes.ascii
register_agent-done_example =
    register_agent-done ledger crypto host keys keys-Agrees 5 3 1 [] [] (at_block 12 newcomers)
      (reserved_for 3 registry_config.registration_deposit) (omega arith) (omega arith)
      (omega arith) (omega arith) refl (omega arith) refl

abbrev chunk_list : List (List ℕ)
chunk_list =
    (1 ∷ []) ∷ (2 ∷ []) ∷ (3 ∷ []) ∷ (4 ∷ []) ∷ (5 ∷ []) ∷ (6 ∷ []) ∷ (7 ∷ []) ∷ (8 ∷ []) ∷ []

-- The directory of the commitment holds its chunks.
abbrev chunk_store : Store
chunk_store =
    (
      7,
      (0, 1 ∷ [])
          ∷ (1, 2 ∷ [])
          ∷ (2, 3 ∷ [])
          ∷ (3, 4 ∷ [])
          ∷ (4, 5 ∷ [])
          ∷ (5, 6 ∷ [])
          ∷ (6, 7 ∷ [])
          ∷ (7, 8 ∷ [])
          ∷ [],
    )
    ∷ []

provider_Acts : Acts (vector_db_config ledger) 1 11 disputed_runtime
unfolding controller_of is_active_verified lookup
provider_Acts = record { controls = refl; eligible = refl }

counter_dispute-complete_example :
    (t : VectorDb (World Ledger)) × (counter_dispute
        (runtime_node ledger crypto host)
        host
        flat_trees
        1
        7
        11
        3
        8
        (at_block 60 disputed_runtime, chunk_store)
      ≡ ((record (at_block 60 disputed_runtime) { runtime = t }, chunk_store), complete tt))
    × (lookup 7 t.vector_commitments ≡ some (record (deal disputed) { status = dispute_resolved }))
    × (lookup 7 t.dispute_records
        ≡ some (record dispute { verdict = some claimant_unsubstantiated }))
unfolding lookup load_all_chunks load_chunk build_merkle_tree counter_arguments
    generate_inclusion_proof leaf_hashes release Escrow.release
counter_dispute-complete_example =
    counter_dispute-complete ledger crypto host flat_trees flat-IsComplete 1 7 chunk_list
      (1 ∷ 1 ∷ 1 ∷ 1 ∷ 1 ∷ 1 ∷ 1 ∷ 1 ∷ []) (4 ∷ []) [] (deal disputed) dispute _
      (at_block 60 disputed_runtime) chunk_store refl refl refl (omega arith) provider_Acts refl
      refl refl (omega arith) refl refl tt (omega arith) (omega arith)

abbrev new_id : ℕ
new_id = commitment_id_of host 11 12 500 12

-- What the registration of one chunk leaves behind.
abbrev registered : VectorDb (World Ledger)
registered = record pending_runtime {
  vector_commitments =
      (7, deal VectorDb.pending) ∷ (new_id, new_commitment new_id 11 12 500 1 [] 12 112 30) ∷ [];
  active_commitment_count = 2;
  events = VectorDb.commitment_registered new_id 11 12 500 1 112 [] ∷ [];
}

register_commitment-complete_example :
    (store' : Store) × (id : ℕ) × (m : VectorCommitment) × (register_commitment
        (runtime_node ledger crypto host)
        host
        flat_trees
        no_faults
        false
        1
        11
        12
        (1 ∷ 2 ∷ 3 ∷ [])
        []
        100
        30
        (at_block 12 pending_runtime, chunk_store)
      ≡ (
        (record (at_block 12 pending_runtime) { runtime = registered }, store'),
        complete (record { commitment_id = id; merkle_root = 500; total_chunks = 1 }),
      ))
    × (id ≡ commitment_id_of host 11 12 500 12)
    × (lookup id registered.vector_commitments ≡ some m)
    × (m.provider ≡ 11)
    × (m.merkle_root ≡ 500)
    × (m.total_chunks ≡ 1)
    × (load_all_chunks id 1 store' ≡ some ((1 ∷ 2 ∷ 3 ∷ []) ∷ []))
unfolding lookup insert chunks_of byte_chunks fill build_merkle_tree leaf_hashes controller_of
    is_active_verified VectorDb.register_commitment commitment_id_of VectorDb.preimage
    arthneura_core.Base.Bytes.ascii arthneura_core.Base.Bytes.le_bytes
register_commitment-complete_example =
    register_commitment-complete ledger crypto host flat_trees no_faults false 1 11 12
      (1 ∷ 2 ∷ 3 ∷ []) [] 100 30 (at_block 12 pending_runtime) chunk_store ((1 ∷ 2 ∷ 3 ∷ []) ∷ [])
      500 (3 ∷ []) registered no_faults-TakesWrites refl refl (omega arith) (omega arith)
      (omega arith) (omega arith) (omega arith) (omega arith) refl (omega arith) (omega arith) refl
