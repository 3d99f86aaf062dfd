-- ===== src/Identity/Bootstrap.antt =====
-- offchain-agent-registry/src/lib.rs: `register_or_load_agent` and `bootstrap_new_agent`, which put the client of
-- Client/Agents.antt and the key store together. Keys, salts and nonces that the source draws are
-- arguments.
use arthneura_core.Base.{
  ℕ, ◌&&◌, Option, none, some, List, [], ◌∷◌, ◌++◌, ◌==◌, if◌then◌else◌, length,
}
use arthneura_core.Base.Bytes.{le_bytes, ascii}
use arthneura_core.Client.{Node, Tx, CallError, CallResult, done, failed, u128, unnamed_variant}
use arthneura_core.Client.Agents.{Signing, RegisteredAgent, register_agent}
use arthneura_core.Identity.{
  Crates, Faults, Disk, Stored, StoredIdentity, KeyStoreError, ok, err, save_identity,
  load_identity, identity_exists,
}

-- `RegisterOrLoadError` and `BootstrapAgentError`
pub data AgentError : Type 0 where
  register : CallError → AgentError
  key_store : KeyStoreError → AgentError
  funding : AgentError
  account_key : AgentError

pub data AgentResult {ℓ} (A : Type ℓ) : Type ℓ where
  complete : A → AgentResult A
  broken : AgentError → AgentResult A

-- What one registration draws at random: the key of the agent, and the salt and the nonce of its file.
pub record Draw : Type 0 where
  pub signing_key : ℕ
  pub salt : List ℕ
  pub nonce : List ℕ

pub record BootstrappedAgent : Type 0 where
  pub did : ℕ
  pub account : ℕ

-- `transfer_keep_alive` to the new account.
abbrev pub transfer : ℕ → ℕ → Tx
transfer account funding_amount = record {
  pallet_name = "Balances";
  call_name = "transfer_keep_alive";
  args = unnamed_variant "Id" (le_bytes 32 account ∷ []) ∷ u128 funding_amount ∷ [];
}

abbrev pub account_label : List ℕ → List ℕ
account_label key_label = key_label ++ ascii "-account"

module _ {S : Type 0} (node : Node S) (blake2_256 : List ℕ → ℕ) (keys : Signing) (crates : Crates)
    (faults : Faults) where
  -- An agent from the key store.
  unfoldable pub loaded : Stored StoredIdentity → AgentResult RegisteredAgent
  loaded (err e) = broken (key_store e)
  loaded (ok stored) =
      complete (record { did = stored.did; signing_key_bytes = stored.signing_key_bytes })

  -- The end of `register_or_load_agent`.
  unfoldable pub keep :
      Draw
      → List ℕ
      → List ℕ
      → List ℕ
      → Disk
      → S × CallResult RegisteredAgent
      → (S × Disk) × AgentResult RegisteredAgent
  keep draw dir key_label passphrase disk (s, failed e) = ((s, disk), broken (register e))
  keep draw dir key_label passphrase disk (s, done agent) =
      let (disk', saved) =
        save_identity crates faults draw.salt draw.nonce dir key_label agent.did
          agent.signing_key_bytes passphrase disk in
      elim saved [
        | err e ↦ ((s, disk'), broken (key_store e))
        | ok u ↦ ((s, disk'), complete agent)
      ]

  unfoldable pub register_or_load_agent :
      Draw
      → ℕ
      → List ℕ
      → List ℕ
      → List ℕ
      → ℕ
      → List ℕ
      → List ℕ
      → S × Disk
      → (S × Disk) × AgentResult RegisteredAgent
  unfolding loaded keep
  register_or_load_agent draw signer dir key_label passphrase capabilities metadata display_label
        (s, disk) =
      if identity_exists dir key_label disk
      then ((s, disk), loaded (load_identity crates faults dir key_label passphrase disk))
      else keep draw dir key_label passphrase disk (
          register_agent node blake2_256 keys draw.signing_key signer capabilities metadata
            display_label s)

  -- `subxt_signer::sr25519::Keypair::from_secret_key`: the account of a seed of 32 bytes.
  module _ (from_secret_key : List ℕ → Option ℕ) where
    -- The fast path: both files are there.
    unfoldable pub load_bootstrapped :
        List ℕ → List ℕ → List ℕ → Disk → AgentResult BootstrappedAgent
    load_bootstrapped dir key_label passphrase disk =
        elim (load_identity crates faults dir key_label passphrase disk) [
          | err e ↦ broken (key_store e)
          | ok identity ↦
              elim (load_identity crates faults dir (account_label key_label) passphrase disk) [
                | err e ↦ broken (key_store e)
                | ok account_secret ↦
                    if length account_secret.signing_key_bytes == 32
                    then elim (from_secret_key account_secret.signing_key_bytes) [
                      | none ↦ broken account_key
                      | some account ↦ complete (record { did = identity.did; account = account })
                    ]
                    else broken account_key
              ]
        ]

    -- Both secrets are saved, the identity first.
    unfoldable pub keep_both :
        Draw
        → Faults
        → List ℕ
        → List ℕ
        → List ℕ
        → List ℕ
        → List ℕ
        → List ℕ
        → ℕ
        → Disk
        → S × CallResult RegisteredAgent
        → (S × Disk) × AgentResult BootstrappedAgent
    keep_both draw account_faults salt nonce dir key_label passphrase account_seed account disk
          (s, failed e) =
        ((s, disk), broken (register e))
    keep_both draw account_faults salt nonce dir key_label passphrase account_seed account disk
          (s, done agent) =
        let (first, saved) =
          save_identity crates faults draw.salt draw.nonce dir key_label agent.did
            agent.signing_key_bytes passphrase disk in
        elim saved [
          | err e ↦ ((s, first), broken (key_store e))
          | ok u ↦
              let (both, saved_account) =
                save_identity crates account_faults salt nonce dir (account_label key_label)
                  agent.did account_seed passphrase first in
              elim saved_account [
                | err e ↦ ((s, both), broken (key_store e))
                | ok v ↦ ((s, both), complete (record { did = agent.did; account = account }))
              ]
        ]

    -- `account_seed` is drawn too, and `account_faults`, `salt` and `nonce` are those of its file.
    unfoldable pub bootstrap_new_agent :
        Draw
        → Faults
        → List ℕ
        → List ℕ
        → List ℕ
        → ℕ
        → List ℕ
        → List ℕ
        → List ℕ
        → ℕ
        → ℕ
        → List ℕ
        → List ℕ
        → S × Disk
        → (S × Disk) × AgentResult BootstrappedAgent
    unfolding load_bootstrapped keep_both
    bootstrap_new_agent draw account_faults account_seed salt nonce sponsor dir key_label passphrase
          funding_amount capabilities metadata display_label (s, disk) =
        if identity_exists dir key_label disk && identity_exists dir (account_label key_label) disk
        then ((s, disk), load_bootstrapped dir key_label passphrase disk)
        else elim (from_secret_key account_seed) [
          | none ↦ ((s, disk), broken account_key)
          | some account ↦
              let (s', sent) = node.submit sponsor (transfer account funding_amount) s in
              elim sent [
                | none ↦ ((s', disk), broken funding)
                | some events ↦
                    keep_both draw account_faults salt nonce dir key_label passphrase account_seed
                      account disk
                      (register_agent node blake2_256 keys draw.signing_key account capabilities
                        metadata display_label s')
              ]
        ]
