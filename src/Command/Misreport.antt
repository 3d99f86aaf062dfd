-- ===== src/Command/Misreport.antt =====
-- What offchain-vector-db/src/main.rs prints of a registration when `MERKLE_ROOT` is set.
use arthneura_core.Base.{
  refl, ◌⊎◌, inl, inr, ℕ, ◌≡◌, ◌≢◌, ◌<◌, ◌^◌, none, Bool, Option, some, List, arith, length,
}
use arthneura_core.Base.Bytes.{ascii}
use arthneura_core.Base.Map.{lookup}
use arthneura_core.Errors.{stream_hash_mismatch}
use arthneura_core.Frame.{Result, DispatchError, Origin, signed, ok, err, vector_db}
use arthneura_core.Currency.{Currency}
use arthneura_core.AgentRegistry.{Crypto}
use arthneura_core.VectorDb.{
  VectorDb, VectorCommitment, Hashing, commitment_id_of, close_commitment,
}
use arthneura_core.VectorDb
use arthneura_core.VectorDb.Calls.{Step, run}
use arthneura_core.VectorDb.Outcome.{close_commitment-ok}
use arthneura_core.Runtime.{World, vector_db_config}
use arthneura_core.Offchain.{Trees, ready, chunks_of, build_merkle_tree}
use arthneura_core.Offchain.Store.{Store, StoreFaults, TakesWrites}
use arthneura_core.Identity.{same}
use arthneura_core.Client.Chain.{Chain, runtime_node}
use arthneura_core.Client.Delivery.{register_commitment-complete}
use arthneura_core.Command.{
  Shell, printed, registered, hex32, uint_or, text_or, controller_or, provided_root,
  payload_from_env, metadata_from_env,
}
use arthneura_core.Command.Actions.{run_register, report_registration, printed_root}

-- `CHUNK_MODE=rows`
abbrev pub in_rows : Shell → Bool
in_rows shell = same (text_or shell (ascii "CHUNK_MODE") (ascii "bytes")) (ascii "rows")

abbrev pub expires_in_blocks : Shell → ℕ
expires_in_blocks shell = uint_or shell 32 (ascii "EXPIRES_IN_BLOCKS") 1000

abbrev pub price : Shell → ℕ
price shell = uint_or shell 128 (ascii "PRICE") 75

Result-cases {ℓ} :
    {A : Type ℓ} (r : Result A)
    → ((reason : DispatchError) × (r ≡ err reason)) ⊎ ((a : A) × (r ≡ ok a))
Result-cases (ok a) = inr (a, refl)
Result-cases (err reason) = inl (reason, refl)

-- Where the right root settles a commitment, another one is refused for being another.
close_commitment-other_root :
    {W : Type 0} (cfg : VectorDb.Config W) (now id consumer root given n : ℕ) (origin : Origin)
    (s u : VectorDb W)
    → given ≢ root
    → close_commitment cfg now origin id consumer root n s ≡ ok u
    → close_commitment cfg now origin id consumer given n s ≡ err (vector_db stream_hash_mismatch)
unfolding close_commitment
close_commitment-other_root cfg now id consumer root given n origin s u other settled =
    let facts = close_commitment-ok cfg now origin id consumer root n s u settled in
    let (who, m, w, signs, found, is, early, its, acts, same_root, _, _) = facts in
    let controls = acts.controls in let eligible = acts.eligible in ground arith

module _ {B T : Type 0} (c : Currency B) (crypto : Crypto) (k : Hashing) (trees : Trees T)
    (shell : Shell) (fetch : ℕ → Chain B → Option (Option (List ℕ))) where
  -- If `MERKLE_ROOT` holds another root than that of the payload, and the conditions hold under which the client
  -- completes a registration (those of `register_commitment-complete`), the registration is reported
  -- with that other root: the root that is printed is not the one that is on the chain. After any
  -- history, settling the commitment by the printed root fails with `StreamHashMismatch`, unless the root that
  -- is on the chain does not settle it either.
  pub run_register-misreports :
      (faults : StoreFaults) (provider_did consumer_did alice given : ℕ) (ch : Chain B)
      (store : Store) (chunks : List (List ℕ)) (root : ℕ) (tree : T) (t : VectorDb (World B))
      (xs : List (Step (World B))) (now consumer n : ℕ) (origin : Origin)
      → hex32 shell (ascii "PROVIDER_DID") ≡ some provider_did
      → hex32 shell (ascii "CONSUMER_DID") ≡ some consumer_did
      → controller_or shell (some shell.alice) ≡ some alice
      → provided_root shell ≡ some given
      → given ≢ root
      → TakesWrites faults
      → chunks_of (in_rows shell) (payload_from_env shell) (metadata_from_env shell) ≡ ready chunks
      → build_merkle_tree k trees chunks ≡ ready (root, tree)
      → provider_did < 256 ^ 32
      → consumer_did < 256 ^ 32
      → root < 256 ^ 32
      → length chunks < 2 ^ 64
      → expires_in_blocks shell < 2 ^ 32
      → price shell < 2 ^ 128
      → VectorDb.register_commitment
          (vector_db_config c)
          k
          ch.system.block_number
          (signed alice)
          provider_did
          consumer_did
          root
          (length chunks)
          (metadata_from_env shell)
          (expires_in_blocks shell)
          (price shell)
          ch.runtime
        ≡ ok t
      → commitment_id_of k provider_did consumer_did root ch.system.block_number < 256 ^ 32
      → k.blake2_256 (payload_from_env shell)
        ≢ commitment_id_of k provider_did consumer_did root ch.system.block_number
      → lookup (commitment_id_of k provider_did consumer_did root ch.system.block_number) store
        ≡ none
      → (store' : Store) × (id : ℕ) × (m : VectorCommitment) × (run_register shell
            (runtime_node c crypto k)
            fetch
            k
            trees
            faults
            (ch, store)
          ≡ ((record ch { runtime = t }, store'), printed (registered id given (length chunks))))
        × (lookup id t.vector_commitments ≡ some m)
        × (m.merkle_root ≡ root)
        × (((reason : DispatchError) × (close_commitment
                  (vector_db_config c)
                  now
                  origin
                  id
                  consumer
                  root
                  n
                  (run (vector_db_config c) k xs t)
                ≡ err reason))
            ⊎ (close_commitment
                  (vector_db_config c)
                  now
                  origin
                  id
                  consumer
                  given
                  n
                  (run (vector_db_config c) k xs t)
                ≡ err (vector_db stream_hash_mismatch)))
  unfolding run_register report_registration printed_root
  run_register-misreports faults provider_did consumer_did alice given ch store chunks root tree t
        xs now consumer n origin provider_set consumer_set account provided other takes cut built f0
        f1 f2 f3 f4 f5 accepted fits apart new =
      let (store', id, m, sent, is_id, found, _, its_root, _, _) =
        register_commitment-complete c crypto k trees faults (in_rows shell) alice provider_did
          consumer_did (payload_from_env shell) (metadata_from_env shell) (expires_in_blocks shell)
          (price shell) ch store chunks root tree t takes cut built f0 f1 f2 f3 f4 f5 accepted fits
          apart new in
      (
        store',
        id,
        m,
        ground arith,
        found,
        its_root,
        elim (Result-cases (
            close_commitment (vector_db_config c) now origin id consumer root n
              (run (vector_db_config c) k xs t))) [
                | inl refused ↦ inl refused
                | inr (u, settled) ↦ inr (
                    close_commitment-other_root (vector_db_config c) now id consumer root given n
                      origin (run (vector_db_config c) k xs t) u other settled)
              ],
      )
