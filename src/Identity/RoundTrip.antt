-- ===== src/Identity/RoundTrip.antt =====
-- An identity is saved and loaded again (offchain-agent-registry/src/keystore.rs).
use arthneura_core.Base.{
  ℕ, ◌≡◌, ◌<◌, ◌^◌, true, false, none, some, List, arith, inl, inr, length, Option-cases,
}
use arthneura_core.Base.Bytes.{le_bytes}
use arthneura_core.Client.Decode.{array_of-le_bytes}
use arthneura_core.Identity.{
  Crates, Faults, Disk, KeyFile, ok, set_mode, write_file, save_identity, save_to, sealed,
  write_sealed, decrypted, unsealed, load_identity, key_file_path, identity_exists,
}
use arthneura_core.Identity.Paths.{same_refl}
use arthneura_core.Identity.Keeping.{Stored-cases}

-- What the crates promise: what is encoded is decoded, and what is encrypted is decrypted with the same
-- key and nonce.
pub record RoundTrips (crates : Crates) : Type 0 where
  pub base64 : (bytes : List ℕ) → crates.base64_decode (crates.base64_encode bytes) ≡ some bytes
  pub hex : (bytes : List ℕ) → crates.hex_decode (crates.hex_encode bytes) ≡ some bytes
  pub json :
      (file : KeyFile) (text : List ℕ)
      → crates.to_string_pretty file ≡ some text
      → crates.from_str text ≡ some file
  pub cipher :
      (key nonce plaintext ciphertext : List ℕ)
      → crates.encrypt key nonce plaintext ≡ some ciphertext
      → crates.decrypt key nonce ciphertext ≡ some plaintext

module _ (crates : Crates) where
  -- The file that `sealed` makes, from the derived key and the ciphertext.
  abbrev pub key_file_of : List ℕ → List ℕ → ℕ → List ℕ → KeyFile
  key_file_of salt nonce did ciphertext = record {
    version = 1;
    did_hex = crates.hex_encode (le_bytes 32 did);
    salt_b64 = crates.base64_encode salt;
    nonce_b64 = crates.base64_encode nonce;
    ciphertext_b64 = crates.base64_encode ciphertext;
  }

  pub sealed-ok :
      (salt nonce : List ℕ) (did : ℕ) (key passphrase json : List ℕ)
      → sealed crates salt nonce did key passphrase ≡ ok json
      → (derived_key : List ℕ) × (ciphertext : List ℕ) × (crates.derive_key passphrase salt
          ≡ some derived_key)
        × (crates.encrypt derived_key nonce key ≡ some ciphertext)
        × (crates.to_string_pretty (key_file_of salt nonce did ciphertext) ≡ some json)
  unfolding sealed
  sealed-ok salt nonce did key passphrase json e =
      elim (Option-cases (crates.derive_key passphrase salt)) [
        | inl refused ↦ absurd (ground arith)
        | inr (derived_key, derived) ↦ elim (Option-cases (crates.encrypt derived_key nonce key)) [
          | inl refused ↦ absurd (ground arith)
          | inr (ciphertext, encrypted) ↦
              elim (Option-cases
                (crates.to_string_pretty (key_file_of salt nonce did ciphertext))) [
                  | inl refused ↦ absurd (ground arith)
                  | inr (text, printed) ↦
                      (derived_key, ciphertext, derived, encrypted, ground arith)
                ]
        ]
      ]

  pub save_identity-ok :
      (faults : Faults) (salt nonce dir label : List ℕ) (did : ℕ) (key passphrase : List ℕ)
      (disk : Disk)
      → (save_identity crates faults salt nonce dir label did key passphrase disk).1 ≡ ok tt
      → (path : List ℕ) × (json : List ℕ) × (key_file_path dir label ≡ ok path)
        × (disk.files path ≡ none)
        × (sealed crates salt nonce did key passphrase ≡ ok json)
        × ((save_identity crates faults salt nonce dir label did key passphrase disk).0
            ≡ set_mode path 384 (write_file path json (set_mode dir 448 disk)))
  unfolding save_identity save_to write_sealed
  save_identity-ok faults salt nonce dir label did key passphrase disk e =
      elim (Stored-cases (key_file_path dir label)) [
        | inl (x, invalid) ↦ absurd (ground arith)
        | inr (path, named) ↦ elim (Option-cases (disk.files path)) [
          | inr (old, taken) ↦ absurd (ground arith)
          | inl free ↦ elim (Stored-cases (sealed crates salt nonce did key passphrase)) [
            | inl (x, stopped) ↦ absurd (ground arith)
            | inr (json, made) ↦ (path, json, named, free, made, ground arith)
          ]
        ]
      ]

  module _ (laws : RoundTrips crates) where
    unsealed-key_file_of :
        (salt nonce : List ℕ) (did : ℕ) (key passphrase derived_key ciphertext : List ℕ)
        → did < 256 ^ 32
        → length nonce ≡ 12
        → crates.derive_key passphrase salt ≡ some derived_key
        → crates.encrypt derived_key nonce key ≡ some ciphertext
        → unsealed crates (key_file_of salt nonce did ciphertext) passphrase
          ≡ ok (record { did = did; signing_key_bytes = key })
    unfolding unsealed decrypted
    unsealed-key_file_of salt nonce did key passphrase derived_key ciphertext fits twelve derived
          encrypted =
        ground (
          arith,
          laws.base64 salt,
          laws.base64 nonce,
          laws.base64 ciphertext,
          laws.hex (le_bytes 32 did),
          laws.cipher derived_key nonce key ciphertext encrypted,
          array_of-le_bytes did fits,
        )

    -- An identity that has been saved is there, in a file that only its owner may read or write, and is
    -- loaded again with the same passphrase, its DID and its key as they were.
    pub load_identity-save_identity :
        (faults later : Faults) (salt nonce dir label : List ℕ) (did : ℕ) (key passphrase : List ℕ)
        (disk : Disk)
        → did < 256 ^ 32
        → length nonce ≡ 12
        → later.read_to_string ≡ false
        → (save_identity crates faults salt nonce dir label did key passphrase disk).1 ≡ ok tt
        → (load_identity crates later dir label passphrase
              (save_identity crates faults salt nonce dir label did key passphrase disk).0
            ≡ ok (record { did = did; signing_key_bytes = key }))
          × (identity_exists dir label
                (save_identity crates faults salt nonce dir label did key passphrase disk).0
              ≡ true)
          × ((path : List ℕ) × (key_file_path dir label ≡ ok path)
              × ((save_identity crates faults salt nonce dir label did key passphrase disk).0.modes
                    path
                  ≡ 384))
    unfolding load_identity identity_exists
    load_identity-save_identity faults later salt nonce dir label did key passphrase disk fits
          twelve readable saved =
        let (path, json, named, free, made, after) =
          save_identity-ok faults salt nonce dir label did key passphrase disk saved in
        let (derived_key, ciphertext, derived, encrypted, printed) =
          sealed-ok salt nonce did key passphrase json made in
        let there : (save_identity crates faults salt nonce dir label did key passphrase
                disk).0.files
              path
            ≡ some json =
          rw (after, same_refl path) in
        let parsed = laws.json (key_file_of salt nonce did ciphertext) json printed in
        let back =
          unsealed-key_file_of salt nonce did key passphrase derived_key ciphertext fits twelve
            derived encrypted in
        (ground arith, ground arith, (path, named, rw (after, same_refl path)))
