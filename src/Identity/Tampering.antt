-- ===== src/Identity/Tampering.antt =====
-- What a change to a key file does (offchain-agent-registry/src/keystore.rs): only the key is encrypted and
-- authenticated.
use arthneura_core.Base.{
  ℕ, ◌≡◌, ◌≢◌, refl, ◌<◌, ◌^◌, false, some, List, arith, inl, inr, Option-cases, length,
}
use arthneura_core.Base.Bytes.{le_bytes}
use arthneura_core.Client.Arguments.{array_of}
use arthneura_core.Client.Decode.{array_of-le_bytes}
use arthneura_core.Identity.{
  Crates, Faults, Disk, KeyFile, StoredIdentity, ok, err, write_file, decrypted, unsealed,
  load_identity, key_file_path, panicked,
}
use arthneura_core.Identity.Paths.{same_refl}
use arthneura_core.Identity.Keeping.{Stored-cases}
use arthneura_core.Identity.RoundTrip.{RoundTrips}

-- The key does not depend on the DID in the file.
decrypted-did_hex :
    (crates : Crates) (file : KeyFile) (passphrase did_hex : List ℕ)
    → decrypted crates (record file { did_hex = did_hex }) passphrase
      ≡ decrypted crates file passphrase
unfolding decrypted
decrypted-did_hex crates file passphrase did_hex = refl

module _ (crates : Crates) (laws : RoundTrips crates) (faults : Faults) where
  unsealed-key :
      (file : KeyFile) (passphrase : List ℕ) (found : StoredIdentity)
      → unsealed crates file passphrase ≡ ok found
      → decrypted crates file passphrase ≡ ok found.signing_key_bytes
  unfolding unsealed
  unsealed-key file passphrase found opened =
      elim (Stored-cases (decrypted crates file passphrase)) [
        | inl (e, stopped) ↦ absurd (ground arith)
        | inr (plaintext, decoded) ↦ elim (Option-cases (crates.hex_decode file.did_hex)) [
          | inl no_hex ↦ absurd (ground arith)
          | inr (did_vec, bytes) ↦ elim (Option-cases (array_of did_vec)) [
            | inl no_did ↦ absurd (ground arith)
            | inr (did, array) ↦ ground arith
          ]
        ]
      ]

  unsealed-forged :
      (file : KeyFile) (passphrase : List ℕ) (found : StoredIdentity) (forged : ℕ)
      → forged < 256 ^ 32
      → unsealed crates file passphrase ≡ ok found
      → unsealed crates
          (record file { did_hex = crates.hex_encode (le_bytes 32 forged) })
          passphrase
        ≡ ok (record found { did = forged })
  unfolding unsealed
  unsealed-forged file passphrase found forged fits opened = ground (
    arith,
    decrypted-did_hex crates file passphrase (crates.hex_encode (le_bytes 32 forged)),
    unsealed-key file passphrase found opened,
    laws.hex (le_bytes 32 forged),
    array_of-le_bytes forged fits,
  )

  -- The DID of a key file is not authenticated. Whoever can write the file, without the passphrase, can put
  -- the hexadecimal form of any other DID in it: the identity is still loaded, without an error, with the key
  -- as it was and the other DID.
  pub load_identity-forged :
      (dir label path json text passphrase : List ℕ) (file : KeyFile) (found : StoredIdentity)
      (forged : ℕ) (disk : Disk)
      → faults.read_to_string ≡ false
      → key_file_path dir label ≡ ok path
      → disk.files path ≡ some json
      → crates.from_str json ≡ some file
      → load_identity crates faults dir label passphrase disk ≡ ok found
      → forged < 256 ^ 32
      → crates.to_string_pretty (record file { did_hex = crates.hex_encode (le_bytes 32 forged) })
        ≡ some text
      → load_identity crates faults dir label passphrase (write_file path text disk)
        ≡ ok (record found { did = forged })
  unfolding load_identity
  load_identity-forged dir label path json text passphrase file found forged disk readable named
        there parsed loaded fits printed =
      let opened : unsealed crates file passphrase ≡ ok found = ground arith in
      let forged_file = record file { did_hex = crates.hex_encode (le_bytes 32 forged) } in
      let back = laws.json forged_file text printed in
      let changed = unsealed-forged file passphrase found forged fits opened in
      let own = same_refl path in ground arith

  -- A key file whose nonce has been replaced by one that is not 12 bytes long makes the program panic;
  -- no error is returned.
  pub load_identity-panics :
      (dir label path json passphrase nonce salt ciphertext derived_key : List ℕ) (file : KeyFile)
      (disk : Disk)
      → faults.read_to_string ≡ false
      → key_file_path dir label ≡ ok path
      → disk.files path ≡ some json
      → crates.from_str json ≡ some file
      → crates.base64_decode file.salt_b64 ≡ some salt
      → crates.base64_decode file.ciphertext_b64 ≡ some ciphertext
      → crates.derive_key passphrase salt ≡ some derived_key
      → crates.base64_decode file.nonce_b64 ≡ some nonce
      → length nonce ≢ 12
      → load_identity crates faults dir label passphrase disk ≡ err panicked
  unfolding load_identity unsealed decrypted
  load_identity-panics dir label path json passphrase nonce salt ciphertext derived_key file disk
        readable named there parsed f1 f2 derived f3 wrong =
      ground arith
