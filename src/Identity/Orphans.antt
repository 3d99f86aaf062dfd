-- ===== src/Identity/Orphans.antt =====
-- Agents that are registered and lost (offchain-agent-registry/src/lib.rs): the chain is changed before the key
-- store is known to take the key.
use arthneura_core.Base.{ℕ, ◌≡◌, true, false, Option, some, List, arith, inl, inr, Option-cases}
use arthneura_core.Client.{Node, done, Event}
use arthneura_core.Client.Agents.{Signing, RegisteredAgent, register_agent}
use arthneura_core.Identity.{
  Crates, Faults, Disk, invalid_label, already_exists, save_identity, identity_exists,
  key_file_path, validate_label, err,
}
use arthneura_core.Identity.Keeping.{Stored-cases}
use arthneura_core.Identity.Bootstrap.{
  Draw, broken, key_store, keep, keep_both, register_or_load_agent, bootstrap_new_agent,
  account_label, transfer,
}

module _ {S : Type 0} (node : Node S) (blake2_256 : List ℕ → ℕ) (keys : Signing)
    (crates : Crates) where
  -- With a label that is not valid, the empty one or one with another character,
  -- `register_or_load_agent` first registers an agent and then fails without having saved its key.
  pub register_or_load_agent-orphans :
      (faults : Faults) (draw : Draw) (signer : ℕ) (dir key_label passphrase : List ℕ)
      (capabilities : ℕ) (metadata display_label : List ℕ) (s s' : S) (disk : Disk)
      (agent : RegisteredAgent)
      → validate_label key_label ≡ err (invalid_label key_label)
      → register_agent node blake2_256 keys draw.signing_key signer capabilities metadata
          display_label s
        ≡ (s', done agent)
      → register_or_load_agent node blake2_256 keys crates faults draw signer dir key_label
          passphrase capabilities metadata display_label
          (s, disk)
        ≡ ((s', disk), broken (key_store (invalid_label key_label)))
  unfolding register_or_load_agent keep identity_exists save_identity key_file_path
  register_or_load_agent-orphans faults draw signer dir key_label passphrase capabilities metadata
        display_label s s' disk agent bad registered =
      ground arith

  module _ (from_secret_key : List ℕ → Option ℕ) where
    -- Where the file of the identity is there and the file of its account is not (the first was saved and
    -- the second could not be), `bootstrap_new_agent` funds and registers another agent each time it is
    -- called, and then fails without having saved anything.
    pub bootstrap_new_agent-orphans :
        (faults account_faults : Faults) (draw : Draw) (account_seed salt nonce : List ℕ)
        (sponsor : ℕ) (dir key_label passphrase : List ℕ) (funding_amount capabilities : ℕ)
        (metadata display_label : List ℕ) (s funded s' : S) (disk : Disk) (account : ℕ)
        (events : List Event) (agent : RegisteredAgent)
        → identity_exists dir key_label disk ≡ true
        → identity_exists dir (account_label key_label) disk ≡ false
        → from_secret_key account_seed ≡ some account
        → node.submit sponsor (transfer account funding_amount) s ≡ (funded, some events)
        → register_agent node blake2_256 keys draw.signing_key account capabilities metadata
            display_label funded
          ≡ (s', done agent)
        → bootstrap_new_agent node blake2_256 keys crates faults from_secret_key draw account_faults
            account_seed salt nonce sponsor dir key_label passphrase funding_amount capabilities
            metadata display_label
            (s, disk)
          ≡ ((s', disk), broken (key_store (already_exists key_label)))
    unfolding bootstrap_new_agent keep_both identity_exists save_identity
    bootstrap_new_agent-orphans faults account_faults draw account_seed salt nonce sponsor dir
          key_label passphrase funding_amount capabilities metadata display_label s funded s' disk
          account events agent there missing derived sent registered =
        elim (Stored-cases (key_file_path dir key_label)) [
          | inl (e, invalid) ↦ absurd (ground arith)
          | inr (path, named) ↦ elim (Option-cases (disk.files path)) [
            | inl free ↦ absurd (ground arith)
            | inr (contents, found) ↦ ground arith
          ]
        ]
