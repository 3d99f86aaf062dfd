-- ===== src/Identity/Idempotence.antt =====
-- An agent outlives its process (offchain-agent-registry/src/lib.rs): what one call of
-- `register_or_load_agent` or `bootstrap_new_agent` has made, the next one loads.
use arthneura_core.Base.{
  ℕ, ◌≡◌, refl, ◌∙◌, ◌<◌, ◌^◌, true, false, Option, List, arith, ◌⊎◌, ◌&&◌, inl, inr, length,
  Option-cases,
}
use arthneura_core.Client.{Node, CallResult, done, failed, CallError}
use arthneura_core.Client.Agents.{Signing, RegisteredAgent, register_agent}
use arthneura_core.Identity.{
  Crates, Faults, Disk, ok, save_identity, load_identity, identity_exists,
}
use arthneura_core.Identity.Keeping.{Stored-cases, load_identity-keeps}
use arthneura_core.Identity.RoundTrip.{RoundTrips, load_identity-save_identity}
use arthneura_core.Identity.Bootstrap.{
  Draw, complete, loaded, keep, register_or_load_agent, BootstrappedAgent, keep_both, account_label,
  transfer, bootstrap_new_agent, load_bootstrapped,
}

pub CallResult-cases {ℓ} :
    {S : Type 0} {A : Type ℓ} (r : S × CallResult A)
    → ((s : S) × (e : CallError) × (r ≡ (s, failed e))) ⊎ ((s : S) × (a : A) × (r ≡ (s, done a)))
CallResult-cases (s, done a) = inr (s, a, refl)
CallResult-cases (s, failed e) = inl (s, e, refl)

module _ {S : Type 0} (node : Node S) (blake2_256 : List ℕ → ℕ) (keys : Signing) (crates : Crates)
    (laws : RoundTrips crates) where
  -- The second call with the same label and passphrase returns the agent of the first, whatever else
  -- it is asked for, and touches neither the chain nor the disk: a call of `register_or_load_agent` that
  -- has registered an agent with a DID of 32 bytes, and a nonce of 12, is never repeated.
  pub register_or_load_agent-again :
      (faults later : Faults) (draw draw' : Draw) (signer signer' : ℕ)
      (dir key_label passphrase : List ℕ) (capabilities capabilities' : ℕ)
      (metadata metadata' display_label display_label' : List ℕ) (s s' : S) (disk disk' : Disk)
      (agent : RegisteredAgent)
      → later.read_to_string ≡ false
      → identity_exists dir key_label disk ≡ false
      → agent.did < 256 ^ 32
      → length draw.nonce ≡ 12
      → register_or_load_agent node blake2_256 keys crates faults draw signer dir key_label
          passphrase capabilities metadata display_label
          (s, disk)
        ≡ ((s', disk'), complete agent)
      → register_or_load_agent node blake2_256 keys crates later draw' signer' dir key_label
          passphrase capabilities' metadata' display_label'
          (s', disk')
        ≡ ((s', disk'), complete agent)
  unfolding register_or_load_agent keep loaded
  register_or_load_agent-again faults later draw draw' signer signer' dir key_label passphrase
        capabilities capabilities' metadata metadata' display_label display_label' s s' disk disk'
        agent readable new fits twelve first =
      elim (CallResult-cases (
        register_agent node blake2_256 keys draw.signing_key signer capabilities metadata
          display_label s)) [
            | inl (t, e, refused) ↦ absurd (ground arith)
            | inr (t, a, registered) ↦
                let after =
                  save_identity crates faults draw.salt draw.nonce dir key_label a.did
                    a.signing_key_bytes passphrase disk in
                elim (Stored-cases after.1) [
                  | inl (e, unsaved) ↦ absurd (ground arith)
                  | inr (u, saved) ↦
                      let same_agent : a ≡ agent = ground arith in
                      let same_disk : after.0 ≡ disk' = ground arith in
                      let small : a.did < 256 ^ 32 = rw same_agent fits in
                      let (back, there, _) =
                        load_identity-save_identity crates laws faults later draw.salt draw.nonce
                          dir key_label a.did a.signing_key_bytes passphrase disk small twelve
                          readable saved in
                      ground arith
                ]
          ]

module _ {S : Type 0} (node : Node S) (blake2_256 : List ℕ → ℕ) (keys : Signing) (crates : Crates)
    (laws : RoundTrips crates) (from_secret_key : List ℕ → Option ℕ) where
  -- What is on the disk after `keep_both` has succeeded.
  pub keep_both-ok :
      (faults account_faults later : Faults) (draw : Draw)
      (salt nonce dir key_label passphrase account_seed : List ℕ) (account : ℕ) (disk disk' : Disk)
      (r : S × CallResult RegisteredAgent) (s' : S) (agent : BootstrappedAgent)
      → later.read_to_string ≡ false
      → agent.did < 256 ^ 32
      → length draw.nonce ≡ 12
      → length nonce ≡ 12
      → keep_both node blake2_256 keys crates faults from_secret_key draw account_faults salt nonce
          dir key_label passphrase account_seed account disk r
        ≡ ((s', disk'), complete agent)
      → (key : List ℕ) × (agent.account ≡ account)
        × (identity_exists dir key_label disk' ≡ true)
        × (load_identity crates later dir key_label passphrase disk'
            ≡ ok (record { did = agent.did; signing_key_bytes = key }))
        × (identity_exists dir (account_label key_label) disk' ≡ true)
        × (load_identity crates later dir (account_label key_label) passphrase disk'
            ≡ ok (record { did = agent.did; signing_key_bytes = account_seed }))
  unfolding keep_both
  keep_both-ok faults account_faults later draw salt nonce dir key_label passphrase account_seed
        account disk disk' (s, failed e) s' agent readable fits twelve twelve' kept =
      absurd (ground arith)
  keep_both-ok faults account_faults later draw salt nonce dir key_label passphrase account_seed
        account disk disk' (s, done a) s' agent readable fits twelve twelve' kept =
      let first =
        save_identity crates faults draw.salt draw.nonce dir key_label a.did a.signing_key_bytes
          passphrase disk in
      let label = account_label key_label in
      let second =
        save_identity crates account_faults salt nonce dir label a.did account_seed passphrase
          first.0 in
      elim (Stored-cases first.1) [
        | inl (e, unsaved) ↦ absurd (ground arith)
        | inr (u, saved) ↦ elim (Stored-cases second.1) [
          | inl (e, unsaved) ↦ absurd (ground arith)
          | inr (v, saved_account) ↦
              let same_did : a.did ≡ agent.did = ground arith in
              let same_account : agent.account ≡ account = ground arith in
              let same_disk : second.0 ≡ disk' = ground arith in
              let small : a.did < 256 ^ 32 = rw same_did fits in
              let (back, there, _) =
                load_identity-save_identity crates laws faults later draw.salt draw.nonce dir
                  key_label a.did a.signing_key_bytes passphrase disk small twelve readable saved in
              let (back', there', _) =
                load_identity-save_identity crates laws account_faults later salt nonce dir label
                  a.did account_seed passphrase first.0 small twelve' readable saved_account in
              let (same, still) =
                load_identity-keeps crates account_faults later salt nonce dir label a.did
                  account_seed passphrase first.0 key_label passphrase there in
              (
                a.signing_key_bytes,
                same_account,
                rw same_disk at still,
                rw (same_disk, same_did) at (same ∙ back),
                rw same_disk at there',
                rw (same_disk, same_did) at back',
              )
        ]
      ]

  -- The second bootstrap with the same label and passphrase returns the DID and the account of the first, and
  -- touches neither the chain nor the disk: no account is funded twice. The drawn seed has 32
  -- bytes, and each nonce 12.
  pub bootstrap_new_agent-again :
      (faults account_faults later account_faults' : Faults) (draw draw' : Draw)
      (account_seed salt nonce account_seed' salt' nonce' : List ℕ) (sponsor sponsor' : ℕ)
      (dir key_label passphrase : List ℕ)
      (funding_amount funding_amount' capabilities capabilities' : ℕ)
      (metadata metadata' display_label display_label' : List ℕ) (s s' : S) (disk disk' : Disk)
      (agent : BootstrappedAgent)
      → later.read_to_string ≡ false
      → (identity_exists dir key_label disk && identity_exists dir (account_label key_label) disk)
        ≡ false
      → agent.did < 256 ^ 32
      → length draw.nonce ≡ 12
      → length nonce ≡ 12
      → length account_seed ≡ 32
      → bootstrap_new_agent node blake2_256 keys crates faults from_secret_key draw account_faults
          account_seed salt nonce sponsor dir key_label passphrase funding_amount capabilities
          metadata display_label
          (s, disk)
        ≡ ((s', disk'), complete agent)
      → bootstrap_new_agent node blake2_256 keys crates later from_secret_key draw' account_faults'
          account_seed' salt' nonce' sponsor' dir key_label passphrase funding_amount' capabilities'
          metadata' display_label'
          (s', disk')
        ≡ ((s', disk'), complete agent)
  unfolding bootstrap_new_agent load_bootstrapped
  bootstrap_new_agent-again faults account_faults later account_faults' draw draw' account_seed salt
        nonce account_seed' salt' nonce' sponsor sponsor' dir key_label passphrase funding_amount
        funding_amount' capabilities capabilities' metadata metadata' display_label display_label' s
        s' disk disk' agent readable new fits twelve twelve' seed first =
      elim (Option-cases (from_secret_key account_seed)) [
        | inl no_key ↦ absurd (ground arith)
        | inr (account, derived) ↦
            let funded = node.submit sponsor (transfer account funding_amount) s in
            elim (Option-cases funded.1) [
              | inl unfunded ↦ absurd (ground arith)
              | inr (events, sent) ↦
                  let registered =
                    register_agent node blake2_256 keys draw.signing_key account capabilities
                      metadata display_label funded.0 in
                  let kept : keep_both node blake2_256 keys crates faults from_secret_key draw
                        account_faults salt nonce dir key_label passphrase account_seed account disk
                        registered
                      ≡ ((s', disk'), complete agent) =
                    ground arith in
                  let (key, same_account, there, back, there', back') =
                    keep_both-ok faults account_faults later draw salt nonce dir key_label
                      passphrase account_seed account disk disk' registered s' agent readable fits
                      twelve twelve' kept in
                  ground arith
            ]
      ]
