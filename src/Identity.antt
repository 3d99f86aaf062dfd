-- ===== src/Identity.antt =====
-- offchain-agent-registry/src/keystore.rs: an agent's identity in an encrypted file. Text is a list of
-- characters by their codes, a path is text, and the disk is what the files hold and which access modes
-- have been set. The crates for encryption, encoding and randomness are parameters, and so is which of
-- the file operations fail. A write that fails is taken to leave nothing behind.
pub mod Paths
pub mod Keeping
pub mod RoundTrip
pub mod Tampering
pub mod Bootstrap
pub mod Idempotence
pub mod Orphans
mod Tests
use arthneura_core.Base.{
  ℕ, ◌≤◌, Bool, true, false, ◌&&◌, ◌||◌, not, Option, none, some, List, [], ◌∷◌, ◌++◌, ◌==◌, leb,
  if◌then◌else◌, length,
}
use arthneura_core.Base.Bytes.{le_bytes, ascii}
use arthneura_core.Client.Arguments.{array_of}

-- `KeyStoreError`, and the panic of `Nonce::from_slice` on bytes of another length.
pub data KeyStoreError : Type 0 where
  io : KeyStoreError
  serde : KeyStoreError
  kdf : KeyStoreError
  decryption_failed : KeyStoreError
  already_exists : List ℕ → KeyStoreError
  not_found : List ℕ → KeyStoreError
  invalid_label : List ℕ → KeyStoreError
  panicked : KeyStoreError

pub data Stored {ℓ} (A : Type ℓ) : Type ℓ where
  ok : A → Stored A
  err : KeyStoreError → Stored A

infixl 5 ◌>>=◌ ◌>>◌
abbrev pub ◌>>=◌ {ℓ κ} : {A : Type ℓ} {B : Type κ} → Stored A → (A → Stored B) → Stored B
ok a >>= next = next a
err e >>= next = err e

abbrev pub ◌>>◌ {ℓ} : {B : Type ℓ} → Stored (Unit {0}) → Stored B → Stored B
first >> next = first >>= λ _. next

abbrev pub ok_or {ℓ} : {A : Type ℓ} → Option A → KeyStoreError → Stored A
ok_or none e = err e
ok_or (some a) e = ok a

pub record KeyFile : Type 0 where
  pub version : ℕ
  pub did_hex : List ℕ
  pub salt_b64 : List ℕ
  pub nonce_b64 : List ℕ
  pub ciphertext_b64 : List ℕ

pub record StoredIdentity : Type 0 where
  pub did : ℕ
  pub signing_key_bytes : List ℕ

-- The crates `argon2` (with the parameters of the source), `chacha20poly1305`, `base64`, `hex` and
-- `serde_json` (for `KeyFile`).
pub record Crates : Type 0 where
  pub derive_key : List ℕ → List ℕ → Option (List ℕ)
  pub encrypt : List ℕ → List ℕ → List ℕ → Option (List ℕ)
  pub decrypt : List ℕ → List ℕ → List ℕ → Option (List ℕ)
  pub base64_encode : List ℕ → List ℕ
  pub base64_decode : List ℕ → Option (List ℕ)
  pub hex_encode : List ℕ → List ℕ
  pub hex_decode : List ℕ → Option (List ℕ)
  pub to_string_pretty : KeyFile → Option (List ℕ)
  pub from_str : List ℕ → Option KeyFile

-- Which operations of the system fail.
pub record Faults : Type 0 where
  pub create_dir_all : Bool
  pub set_dir_permissions : Bool
  pub random_bytes : Bool
  pub write : Bool
  pub set_file_permissions : Bool
  pub read_to_string : Bool

pub record Disk : Type 0 where
  pub files : List ℕ → Option (List ℕ)
  pub modes : List ℕ → ℕ

-- `==` on texts.
unfoldable pub same : List ℕ → List ℕ → Bool
same [] [] = true
same [] (d ∷ ds) = false
same (c ∷ cs) [] = false
same (c ∷ cs) (d ∷ ds) = (c == d) && same cs ds

abbrev pub between : ℕ → ℕ → ℕ → Bool
between low high c = leb low c && leb c high

-- `c.is_ascii_alphanumeric() || c == '-' || c == '_'`
abbrev pub label_char : ℕ → Bool
label_char c =
    ((between 48 57 c || between 65 90 c) || between 97 122 c) || ((c == 45) || (c == 95))

unfoldable pub all_label_chars : List ℕ → Bool
all_label_chars [] = true
all_label_chars (c ∷ cs) = label_char c && all_label_chars cs

unfoldable pub validate_label : List ℕ → Stored (Unit {0})
unfolding all_label_chars
validate_label label =
    let valid = not (length label == 0) && all_label_chars label in
    if valid then ok tt else err (invalid_label label)

-- `Path::join` on unix: a path from the root replaces, and a separator is put in where there is none.
unfoldable pub needs_no_separator : List ℕ → Bool
needs_no_separator [] = true
needs_no_separator (c ∷ []) = c == 47
needs_no_separator (c ∷ d ∷ cs) = needs_no_separator (d ∷ cs)

unfoldable pub join : List ℕ → List ℕ → List ℕ
unfolding needs_no_separator
join dir [] = if needs_no_separator dir then dir else dir ++ 47 ∷ []
join dir (c ∷ cs) =
    if c == 47 then c ∷ cs else if needs_no_separator dir then dir ++ c ∷ cs else dir ++ 47 ∷ c ∷ cs

-- `home` is the environment variable `HOME`.
unfoldable pub default_keystore_dir : Option (List ℕ) → Stored (List ℕ)
unfolding join ascii
default_keystore_dir home = do
  h ← ok_or home io
  ok (join (join h (ascii ".arthneura")) (ascii "keys"))

unfoldable pub key_file_path : List ℕ → List ℕ → Stored (List ℕ)
unfolding validate_label join ascii
key_file_path dir label = do validate_label label; ok (join dir (label ++ ascii ".json"))

abbrev pub exists : List ℕ → Disk → Bool
exists path disk = elim (disk.files path) [ none ↦ false | some contents ↦ true ]

-- `fs::write`
abbrev pub write_file : List ℕ → List ℕ → Disk → Disk
write_file path contents disk = record disk {
  files = λ p. if same p path then some contents else disk.files p;
}

-- `fs::set_permissions`
abbrev pub set_mode : List ℕ → ℕ → Disk → Disk
set_mode path mode disk = record disk { modes = λ p. if same p path then mode else disk.modes p }

module _ (crates : Crates) where
  -- The file that `save_identity` writes, from the salt and the nonce that `random_bytes` returns.
  unfoldable pub sealed : List ℕ → List ℕ → ℕ → List ℕ → List ℕ → Stored (List ℕ)
  sealed salt nonce did signing_key_bytes passphrase = do
    derived_key ← ok_or (crates.derive_key passphrase salt) kdf
    ciphertext ← ok_or (crates.encrypt derived_key nonce signing_key_bytes) kdf
    ok_or
        (crates.to_string_pretty (record {
          version = 1;
          did_hex = crates.hex_encode (le_bytes 32 did);
          salt_b64 = crates.base64_encode salt;
          nonce_b64 = crates.base64_encode nonce;
          ciphertext_b64 = crates.base64_encode ciphertext;
        }))
        serde

  -- The key in a key file, for a passphrase.
  unfoldable pub decrypted : KeyFile → List ℕ → Stored (List ℕ)
  decrypted key_file passphrase = do
    salt ← ok_or (crates.base64_decode key_file.salt_b64) decryption_failed
    nonce ← ok_or (crates.base64_decode key_file.nonce_b64) decryption_failed
    ciphertext ← ok_or (crates.base64_decode key_file.ciphertext_b64) decryption_failed
    derived_key ← ok_or (crates.derive_key passphrase salt) kdf
    if length nonce == 12
        then ok_or (crates.decrypt derived_key nonce ciphertext) decryption_failed
        else err panicked

  -- The identity in a key file.
  unfoldable pub unsealed : KeyFile → List ℕ → Stored StoredIdentity
  unfolding decrypted array_of
  unsealed key_file passphrase = do
    plaintext ← decrypted key_file passphrase
    did_vec ← ok_or (crates.hex_decode key_file.did_hex) decryption_failed
    did ← ok_or (array_of did_vec) decryption_failed
    ok (record { did = did; signing_key_bytes = plaintext })

module _ (crates : Crates) (faults : Faults) where
  -- The two last steps: the file is there whether or not its mode can be set.
  unfoldable pub write_sealed : List ℕ → List ℕ → Disk → Disk × Stored (Unit {0})
  write_sealed path json disk =
      if faults.write
      then (disk, err io)
      else if faults.set_file_permissions
      then (write_file path json disk, err io)
      else (set_mode path 384 (write_file path json disk), ok tt)

  -- From the creation of the directory on; its mode is set before anything is written.
  unfoldable pub save_to :
      List ℕ → List ℕ → List ℕ → List ℕ → ℕ → List ℕ → List ℕ → Disk → Disk × Stored (Unit {0})
  unfolding sealed write_sealed
  save_to dir path salt nonce did signing_key_bytes passphrase disk =
      if faults.create_dir_all || faults.set_dir_permissions
      then (disk, err io)
      else let private_dir = set_mode dir 448 disk in
        if faults.random_bytes
        then (private_dir, err kdf)
        else elim (sealed crates salt nonce did signing_key_bytes passphrase) [
          | err e ↦ (private_dir, err e)
          | ok json ↦ write_sealed path json private_dir
        ]

  unfoldable pub save_identity :
      List ℕ → List ℕ → List ℕ → List ℕ → ℕ → List ℕ → List ℕ → Disk → Disk × Stored (Unit {0})
  unfolding key_file_path save_to
  save_identity salt nonce dir label did signing_key_bytes passphrase disk =
      elim (key_file_path dir label) [
        | err e ↦ (disk, err e)
        | ok path ↦
            if exists path disk
            then (disk, err (already_exists label))
            else save_to dir path salt nonce did signing_key_bytes passphrase disk
      ]

  unfoldable pub load_identity : List ℕ → List ℕ → List ℕ → Disk → Stored StoredIdentity
  unfolding key_file_path unsealed
  load_identity dir label passphrase disk = do
    path ← key_file_path dir label
    json ← elim (disk.files path) [
      | none ↦ err (not_found label)
      | some contents ↦ if faults.read_to_string then err io else ok contents
    ]
    key_file ← ok_or (crates.from_str json) serde
    unsealed crates key_file passphrase

unfoldable pub identity_exists : List ℕ → List ℕ → Disk → Bool
unfolding key_file_path
identity_exists dir label disk = elim (key_file_path dir label) [
  | err e ↦ false
  | ok path ↦ exists path disk
]
