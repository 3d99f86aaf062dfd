-- ===== src/Command/Tests.antt =====
-- The program on the deal of Runtime/Example.antt: the variables are a function, hexadecimal text is the
-- bytes themselves.
use arthneura_core.Base.{
  ◌⊎◌, ℕ, ◌≡◌, refl, false, Option, none, some, List, [], ◌∷◌, true, arith, if◌then◌else◌,
}
use arthneura_core.Base.Bytes.{ascii, le_bytes}
use arthneura_core.Base.Map.{lookup, insert, remove}
use arthneura_core.Frame.{ok, DispatchError, Result, signed, err, vector_db, committed}
use arthneura_core.Errors.{stream_hash_mismatch}
use arthneura_core.VectorDb.Calls.{Step, calls, acknowledges, run}
use arthneura_core.Runtime
use arthneura_core.Escrow
use arthneura_core.Currency.Ledger.{Ledger, ledger}
use arthneura_core.VectorDb.{
  VectorDb, VectorCommitment, commitment_id_of, preimage, close_commitment,
}
use arthneura_core.VectorDb
use arthneura_core.Runtime.{World, vector_db_config, controller_of, is_active_verified}
use arthneura_core.Runtime.Example.{crypto, host, pending_runtime}
use arthneura_core.Offchain.{chunks_of, byte_chunks, fill, build_merkle_tree, leaf_hashes}
use arthneura_core.Offchain.Example.{flat_trees, no_faults, no_faults-TakesWrites}
use arthneura_core.Offchain.Store.{Store, persist, write_from, rekey}
use arthneura_core.Identity.{same}
use arthneura_core.Door.Requests.{trim_0x}
use arthneura_core.Client.{call_and_confirm, find_event}
use arthneura_core.Client.Arguments.{array_of, of_bytes}
use arthneura_core.Client.Dispatch.{dispatch, trade_call, trade_call_7}
use arthneura_core.Client.Chain.{Chain, runtime_node, submit, attempt, deposits, gained}
use arthneura_core.Client.Commitments.{
  RegisterCommitmentResult, ClientResult, register_commitment, settle_chunks,
  decode_fixed_bytes_field,
}
use arthneura_core.Command.{
  Shell, printed, registered, returned_error, exited, parse_uint, digits, hex32, uint_or,
  controller_or, provided_root, payload_from_env, metadata_from_env,
}
use arthneura_core.Command.Actions.{run_register, report_registration, main, run_close}
use arthneura_core.Command.Misreport.{run_register-misreports}

abbrev shell : Shell
shell = record {
  var = λ name.
      if same name (ascii "PROVIDER_DID")
      then some (le_bytes 32 11)
      else if same name (ascii "CONSUMER_DID")
      then some (le_bytes 32 12)
      else if same name (ascii "MERKLE_ROOT")
      then some (le_bytes 32 600)
      else if same name (ascii "ACTION")
      then some (ascii "close")
      else none;
  trim = λ text. text;
  hex_decode = λ text. some text;
  from_secret_key = λ seed. none;
  alice = 1;
  bob = 2;
}

abbrev fetch : ℕ → Chain Ledger → Option (Option (List ℕ))
fetch who ch = none

abbrev chain : Chain Ledger
chain = record {
  system = record { block_number = 12; block_hash = λ m. m };
  runtime = pending_runtime;
}

parsed : parse_uint 8 (ascii "+255") ≡ some 255
unfolding parse_uint digits ascii
parsed = refl

overflowed : parse_uint 8 (ascii "256") ≡ none
unfolding parse_uint digits ascii
overflowed = refl

-- Without a `COMMITMENT_ID` nothing is closed.
incomplete :
    main shell (runtime_node ledger crypto host) fetch host flat_trees no_faults (chain, [])
    ≡ ((chain, []), returned_error)
unfolding main run_close hex32 ascii same
incomplete = refl

abbrev new_id : ℕ
new_id = commitment_id_of host 11 12 500 12

-- The registration of the default payload, of 23 bytes, for 75.
abbrev outcome : (Chain Ledger × Store) × ClientResult RegisterCommitmentResult
outcome =
    register_commitment (runtime_node ledger crypto host) host flat_trees no_faults false 1 11 12
      (ascii "arthneura stamp payload") (ascii "csv.v1") 1000 75 (chain, [])

-- A disk that is full: nothing is submitted.
full_disk :
    main
      (record shell { var = λ name. if same name (ascii "ACTION") then none else shell.var name })
      (runtime_node ledger crypto host)
      fetch
      host
      flat_trees
      (record no_faults { create_dir_all = true })
      (chain, [])
    ≡ ((chain, []), exited)
unfolding main run_register report_registration hex32 ascii same le_bytes trim_0x of_bytes
    controller_or provided_root payload_from_env metadata_from_env uint_or register_commitment
    chunks_of byte_chunks fill build_merkle_tree leaf_hashes persist
full_disk = refl

abbrev registered_runtime : VectorDb (World Ledger)
registered_runtime = outcome.0.0.runtime

-- The consumer acknowledges the commitment.
abbrev later : List (Step (World Ledger))
later = calls (acknowledges 13 (signed 2) new_id 12) ∷ []

abbrev settled : Result (VectorDb (World Ledger))
settled =
    close_commitment (vector_db_config ledger) 20 (signed 2) new_id 12 500 1
      (run (vector_db_config ledger) host later registered_runtime)

abbrev settled_runtime : VectorDb (World Ledger)
settled_runtime = committed pending_runtime settled

settled_by_root : settled ≡ ok settled_runtime
unfolding lookup insert remove ascii le_bytes same hex32 trim_0x array_of of_bytes controller_or
    provided_root payload_from_env metadata_from_env uint_or register_commitment settle_chunks
    decode_fixed_bytes_field chunks_of byte_chunks fill build_merkle_tree leaf_hashes persist
    write_from rekey call_and_confirm find_event submit attempt deposits gained dispatch trade_call
    trade_call_7 VectorDb.Calls.call VectorDb.register_commitment commitment_id_of preimage
    controller_of is_active_verified close_commitment VectorDb.acknowledge_commitment run
    Runtime.lock Runtime.release Escrow.lock Escrow.release
settled_by_root = refl

run_register-misreports_example :
    (store' : Store) × (id : ℕ) × (m : VectorCommitment) × (run_register shell
        (runtime_node ledger crypto host)
        fetch
        host
        flat_trees
        no_faults
        (chain, [])
      ≡ ((record chain { runtime = registered_runtime }, store'), printed (registered id 600 1)))
    × (lookup id registered_runtime.vector_commitments ≡ some m)
    × (m.merkle_root ≡ 500)
    × (((reason : DispatchError) × (close_commitment
              (vector_db_config ledger)
              20
              (signed 2)
              id
              12
              500
              1
              (run (vector_db_config ledger) host later registered_runtime)
            ≡ err reason))
        ⊎ (close_commitment
              (vector_db_config ledger)
              20
              (signed 2)
              id
              12
              600
              1
              (run (vector_db_config ledger) host later registered_runtime)
            ≡ err (vector_db stream_hash_mismatch)))
unfolding lookup insert remove ascii le_bytes same hex32 trim_0x array_of of_bytes controller_or
    provided_root payload_from_env metadata_from_env uint_or register_commitment settle_chunks
    decode_fixed_bytes_field chunks_of byte_chunks fill build_merkle_tree leaf_hashes persist
    write_from rekey call_and_confirm find_event submit attempt deposits gained dispatch trade_call
    trade_call_7 VectorDb.Calls.call VectorDb.register_commitment commitment_id_of preimage
    controller_of is_active_verified close_commitment VectorDb.acknowledge_commitment run
    Runtime.lock Runtime.release Escrow.lock Escrow.release
run_register-misreports_example =
    run_register-misreports ledger crypto host flat_trees shell fetch no_faults 11 12 1 600 chain []
      (ascii "arthneura stamp payload" ∷ []) 500 (23 ∷ []) registered_runtime later 20 12 1
      (signed 2) refl refl refl refl (omega arith) no_faults-TakesWrites refl refl (omega arith)
      (omega arith) (omega arith) (omega arith) (omega arith) (omega arith) refl (omega arith)
      (omega arith) refl
