-- ===== src/Command/Actions.antt =====
-- The actions of offchain-vector-db/src/main.rs, which the variable `ACTION` names.
use arthneura_core.Base.{ℕ, ◌∷◌, [], List, Option, none, some, if◌then◌else◌}
use arthneura_core.Base.Bytes.{ascii, le_bytes}
use arthneura_core.VectorDb.{Hashing}
use arthneura_core.Offchain.{Trees}
use arthneura_core.Offchain.Store.{Store, StoreFaults}
use arthneura_core.Identity.{same}
use arthneura_core.Client.{Node, Tx, CallResult, done, failed, unnamed_variant, u128}
use arthneura_core.Client.Commitments.{
  RegisterCommitmentResult, ClientResult, complete, rejected, storage, call_error,
  acknowledge_commitment, close_commitment, raise_dispute, finalize_dispute, register_commitment,
  counter_dispute,
}
use arthneura_core.Command.{
  Shell, Line, Exit, printed, returned_error, exited, panicked, balance_raw, balance_missing,
  raise_ok, counter_ok, finalize_ok, acknowledged, transfer_ok, closed, registered, hex32, uint_or,
  controller_or, text_or, signer_from_env, provided_root, payload_from_env, metadata_from_env,
  parse_uint,
}

-- `dest` of the action `transfer`.
abbrev transfer_allow_death : ℕ → ℕ → Tx
transfer_allow_death to amount = record {
  pallet_name = "Balances";
  call_name = "transfer_allow_death";
  args = unnamed_variant "Id" (le_bytes 32 to ∷ []) ∷ u128 amount ∷ [];
}

-- What is printed of a registration: the root that was provided, if there is one.
unfoldable pub printed_root : Option ℕ → RegisterCommitmentResult → ℕ
printed_root none r = r.merkle_root
printed_root (some given) r = given

module _ {S T : Type 0} (shell : Shell) (node : Node S) (fetch : ℕ → S → Option (Option (List ℕ)))
    (k : Hashing) (trees : Trees T) where
  abbrev pub Run : Type 0
  Run = (S × Store) × Exit

  -- The operator `?` on a variable that has to be a hash, and the panic of a bad seed.
  abbrev with_hex32 : List ℕ → S × Store → (ℕ → Run) → Run
  with_hex32 name st next = elim (hex32 shell name) [
    | none ↦ (st, returned_error)
    | some h ↦ next h
  ]

  abbrev with_account : Option ℕ → S × Store → (ℕ → Run) → Run
  with_account account st next = elim account [ none ↦ (st, panicked) | some who ↦ next who ]

  -- The end of an action: the line, or exit code 1.
  abbrev report : Line → Store → S × CallResult (Unit {0}) → Run
  report line store (s, done u) = ((s, store), printed line)
  report line store (s, failed e) = ((s, store), exited)

  abbrev report_dispute : (S × Store) × ClientResult (Unit {0}) → Run
  report_dispute (st, complete u) = (st, printed counter_ok)
  report_dispute (st, rejected e) = (st, exited)
  report_dispute (st, storage) = (st, exited)
  report_dispute (st, call_error e) = (st, exited)

  unfoldable pub report_registration :
      Option ℕ → (S × Store) × ClientResult RegisterCommitmentResult → Run
  unfolding printed_root
  report_registration provided (st, complete r) =
      (st, printed (registered r.commitment_id (printed_root provided r) r.total_chunks))
  report_registration provided (st, rejected e) = (st, exited)
  report_registration provided (st, storage) = (st, exited)
  report_registration provided (st, call_error e) = (st, exited)

  -- ACTION=balance
  unfoldable pub run_balance : S × Store → Run
  unfolding signer_from_env ascii
  run_balance (s, store) =
      let name = text_or shell (ascii "SIGNER") (ascii "alice") in
      with_account (signer_from_env shell) (s, store)
        (λ who. elim (fetch who s) [
          | none ↦ ((s, store), returned_error)
          | some none ↦ ((s, store), printed (balance_missing name))
          | some (some value) ↦ ((s, store), printed (balance_raw name value))
        ])

  -- ACTION=raise
  unfoldable pub run_raise : S × Store → Run
  unfolding signer_from_env ascii hex32 uint_or
  run_raise (s, store) =
      with_hex32 (ascii "COMMITMENT_ID") (s, store)
        (λ commitment_id.
          with_hex32 (ascii "CONSUMER_DID") (s, store)
            (λ consumer_did.
              with_hex32 (ascii "RECEIVED_CHUNK_HASH") (s, store)
                (λ bad.
                  with_account (signer_from_env shell) (s, store)
                    (λ signer. report raise_ok store (
                      raise_dispute node signer commitment_id consumer_did
                        (uint_or shell 64 (ascii "CHUNK_INDEX") 0) bad
                        (uint_or shell 64 (ascii "TOTAL_CHUNKS") 1) s)))))

  -- ACTION=counter
  unfoldable pub run_counter : S × Store → Run
  unfolding signer_from_env ascii hex32 uint_or
  run_counter st = with_hex32 (ascii "COMMITMENT_ID") st (λ commitment_id.
      with_hex32 (ascii "PROVIDER_DID") st (λ provider_did.
        with_account (signer_from_env shell) st (λ signer. report_dispute (
          counter_dispute node k trees signer commitment_id provider_did
            (uint_or shell 64 (ascii "CHUNK_INDEX") 0) (uint_or shell 64 (ascii "TOTAL_CHUNKS") 1)
            st))))

  -- ACTION=finalize
  unfoldable pub run_finalize : S × Store → Run
  unfolding signer_from_env ascii hex32
  run_finalize (s, store) =
      with_hex32 (ascii "COMMITMENT_ID") (s, store)
        (λ commitment_id.
          with_account (signer_from_env shell) (s, store)
            (λ signer. report finalize_ok store (finalize_dispute node signer commitment_id s)))

  -- ACTION=acknowledge
  unfoldable pub run_acknowledge : S × Store → Run
  unfolding signer_from_env ascii hex32
  run_acknowledge (s, store) =
      with_hex32 (ascii "COMMITMENT_ID") (s, store)
        (λ commitment_id.
          with_hex32 (ascii "CONSUMER_DID") (s, store)
            (λ consumer_did.
              with_account (signer_from_env shell) (s, store)
                (λ signer.
                  report (acknowledged commitment_id) store
                    (acknowledge_commitment node signer commitment_id consumer_did s))))

  -- ACTION=transfer, from the development account of Alice
  unfoldable pub run_transfer : S × Store → Run
  unfolding ascii hex32 parse_uint
  run_transfer (s, store) =
      with_hex32 (ascii "TO") (s, store)
        (λ to. elim (parse_uint 128 (text_or shell (ascii "AMOUNT") (ascii "100"))) [
          | none ↦ ((s, store), returned_error)
          | some amount ↦
              let (s', sent) = node.submit shell.alice (transfer_allow_death to amount) s in
              elim sent [
                | none ↦ ((s', store), returned_error)
                | some events ↦ ((s', store), printed transfer_ok)
              ]
        ])

  -- ACTION=close
  unfoldable pub run_close : S × Store → Run
  unfolding signer_from_env ascii hex32 uint_or
  run_close (s, store) =
      with_hex32 (ascii "COMMITMENT_ID") (s, store)
        (λ commitment_id.
          with_hex32 (ascii "CONSUMER_DID") (s, store)
            (λ consumer_did.
              with_hex32 (ascii "MERKLE_ROOT") (s, store)
                (λ merkle_root.
                  with_account (signer_from_env shell) (s, store)
                    (λ signer. report (closed commitment_id) store (
                      close_commitment node signer commitment_id consumer_did merkle_root
                        (uint_or shell 64 (ascii "TOTAL_CHUNKS") 1) s)))))

  -- Any other action registers a commitment.
  unfoldable pub run_register : StoreFaults → S × Store → Run
  unfolding ascii hex32 uint_or controller_or provided_root payload_from_env metadata_from_env
      report_registration
  run_register faults st = with_hex32 (ascii "PROVIDER_DID") st (λ provider_did.
      with_hex32 (ascii "CONSUMER_DID") st (λ consumer_did.
        with_account (controller_or shell (some shell.alice)) st (λ alice.
          report_registration (provided_root shell) (
            register_commitment node k trees faults
              (same (text_or shell (ascii "CHUNK_MODE") (ascii "bytes")) (ascii "rows")) alice
              provider_did consumer_did (payload_from_env shell) (metadata_from_env shell)
              (uint_or shell 32 (ascii "EXPIRES_IN_BLOCKS") 1000)
              (uint_or shell 128 (ascii "PRICE") 75) st))))

  unfoldable pub main : StoreFaults → S × Store → Run
  unfolding ascii run_balance run_raise run_counter run_finalize run_acknowledge run_transfer
      run_close run_register
  main faults st =
      let action = text_or shell (ascii "ACTION") (ascii "register") in
      if same action (ascii "balance")
      then run_balance st
      else if same action (ascii "raise")
      then run_raise st
      else if same action (ascii "counter")
      then run_counter st
      else if same action (ascii "finalize")
      then run_finalize st
      else if same action (ascii "acknowledge")
      then run_acknowledge st
      else if same action (ascii "transfer")
      then run_transfer st
      else if same action (ascii "close")
      then run_close st
      else run_register faults st
