-- ===== src/Identity/Keeping.antt =====
-- `save_identity` of offchain-agent-registry/src/keystore.rs never destroys an identity.
use arthneura_core.Base.{
  ℕ, ◌≡◌, ◌≢◌, refl, true, false, some, List, arith, inl, inr, ◌⊎◌, Bool-cases, Option-cases,
}
use arthneura_core.Identity.{
  Crates, Faults, Disk, Stored, ok, err, KeyStoreError, same, save_identity, save_to, sealed,
  write_sealed, load_identity, key_file_path, identity_exists,
}
use arthneura_core.Identity.Paths.{same-eq}

pub Stored-cases {ℓ} :
    {A : Type ℓ} (r : Stored A) → ((e : KeyStoreError) × (r ≡ err e)) ⊎ ((a : A) × (r ≡ ok a))
Stored-cases (ok a) = inr (a, refl)
Stored-cases (err e) = inl (e, refl)

same-false : (p q : List ℕ) → p ≢ q → same p q ≡ false
same-false p q other = elim (Bool-cases (same p q)) [
  | inl equal ↦ absurd (other (same-eq p q equal))
  | inr unequal ↦ unequal
]

module _ (crates : Crates) (faults : Faults) where
  save_to-files :
      (dir path salt nonce : List ℕ) (did : ℕ) (key passphrase p : List ℕ) (disk : Disk)
      → p ≢ path
      → (save_to crates faults dir path salt nonce did key passphrase disk).0.files p ≡ disk.files p
  unfolding save_to write_sealed
  save_to-files dir path salt nonce did key passphrase p disk other =
      let elsewhere = same-false p path other in
      elim (Stored-cases (sealed crates salt nonce did key passphrase)) [
        | inl (e, stopped) ↦ ground arith
        | inr (json, made) ↦ ground arith
      ]

  -- Whatever fails on the way, an attempt to save an identity leaves every file that was there as it was.
  pub save_identity-keeps :
      (salt nonce dir label : List ℕ) (did : ℕ) (key passphrase : List ℕ) (disk : Disk)
      (path contents : List ℕ)
      → disk.files path ≡ some contents
      → (save_identity crates faults salt nonce dir label did key passphrase disk).0.files path
        ≡ some contents
  unfolding save_identity
  save_identity-keeps salt nonce dir label did key passphrase disk path contents there =
      elim (Stored-cases (key_file_path dir label)) [
        | inl (e, invalid) ↦ ground arith
        | inr (own, named) ↦ elim (Option-cases (disk.files own)) [
          | inl free ↦
              let other : path ≢ own = λ h. ground arith in
              let kept = save_to-files dir own salt nonce did key passphrase path disk other in
              ground arith
          | inr (old, taken) ↦ ground arith
        ]
      ]

  -- An identity that is there is loaded as before, after any attempt to save one.
  pub load_identity-keeps :
      (later : Faults) (salt nonce dir label : List ℕ) (did : ℕ) (key passphrase : List ℕ)
      (disk : Disk) (other_label other_passphrase : List ℕ)
      → identity_exists dir other_label disk ≡ true
      → (load_identity crates later dir other_label other_passphrase
            (save_identity crates faults salt nonce dir label did key passphrase disk).0
          ≡ load_identity crates later dir other_label other_passphrase disk)
        × (identity_exists dir other_label
              (save_identity crates faults salt nonce dir label did key passphrase disk).0
            ≡ true)
  unfolding load_identity identity_exists
  load_identity-keeps later salt nonce dir label did key passphrase disk other_label
        other_passphrase there =
      elim (Stored-cases (key_file_path dir other_label)) [
        | inl (e, invalid) ↦ absurd (ground arith)
        | inr (path, named) ↦ elim (Option-cases (disk.files path)) [
          | inl free ↦ absurd (ground arith)
          | inr (contents, found) ↦
              let kept =
                save_identity-keeps salt nonce dir label did key passphrase disk path contents
                  found in
              (ground arith, ground arith)
        ]
      ]
