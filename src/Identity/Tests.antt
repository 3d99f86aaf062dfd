-- ===== src/Identity/Tests.antt =====
-- The key store on concrete files: the cipher and the text encodings leave the bytes as they are, and the
-- JSON form of a key file is its fields, each ended by 0.
use arthneura_core.Base.{
  ℕ, zero, suc, ◌≡◌, refl, true, ap, sym, true, false, Option, none, some, List, [], ◌∷◌, arith,
  length,
}
use mathlib.Core.Path.{subst}
use arthneura_core.Base.Bytes.{ascii, le_bytes}
use arthneura_core.Client.{Node, call_and_confirm, find_event}
use arthneura_core.Client.Arguments.{array_of}
use arthneura_core.Client.Agents.{Signing, RegisteredAgent, register_agent}
use arthneura_core.Identity.{
  Crates, Faults, Disk, KeyFile, ok, invalid_label, already_exists, io, set_mode, same, write_file,
  save_identity, load_identity, identity_exists, key_file_path, validate_label, all_label_chars,
}
use arthneura_core.Identity.Keeping.{load_identity-keeps}
use arthneura_core.Identity.RoundTrip.{RoundTrips, load_identity-save_identity}
use arthneura_core.Identity.Tampering.{load_identity-forged}
use arthneura_core.Identity.Bootstrap.{
  Draw, complete, broken, key_store, register_or_load_agent, BootstrappedAgent, bootstrap_new_agent,
  account_label,
}
use arthneura_core.Identity.Idempotence.{register_or_load_agent-again, bootstrap_new_agent-again}
use arthneura_core.Identity.Orphans.{register_or_load_agent-orphans, bootstrap_new_agent-orphans}

abbrev put : List ℕ → List ℕ → List ℕ
put [] rest = 0 ∷ rest
put (x ∷ xs) rest = suc x ∷ put xs rest

abbrev field : List ℕ → List ℕ × List ℕ
field [] = ([], [])
field (zero ∷ rest) = ([], rest)
field (suc x ∷ rest) = let next = field rest in (x ∷ next.0, next.1)

field-put : (xs rest : List ℕ) → field (put xs rest) ≡ (xs, rest)
field-put [] rest = refl
field-put (x ∷ xs) rest = ap (λ r. (x ∷ r.0, r.1)) (field-put xs rest)

abbrev print : KeyFile → List ℕ
print f = f.version ∷ put f.did_hex (put f.salt_b64 (put f.nonce_b64 (put f.ciphertext_b64 [])))

abbrev parse : List ℕ → Option KeyFile
parse [] = none
parse (version ∷ text) =
    let a = field text in
    let b = field a.1 in
    let c = field b.1 in
    let d = field c.1 in
    some (record {
      version = version;
      did_hex = a.0;
      salt_b64 = b.0;
      nonce_b64 = c.0;
      ciphertext_b64 = d.0;
    })

abbrev plain : Crates
plain = record {
  derive_key = λ passphrase salt. some passphrase;
  encrypt = λ key nonce plaintext. some plaintext;
  decrypt = λ key nonce ciphertext. some ciphertext;
  base64_encode = λ bytes. bytes;
  base64_decode = λ text. some text;
  hex_encode = λ bytes. bytes;
  hex_decode = λ text. some text;
  to_string_pretty = λ f. some (print f);
  from_str = parse;
}

parse-print : (f : KeyFile) → parse (print f) ≡ some f
parse-print f =
    rw
      (
        field-put f.did_hex (put f.salt_b64 (put f.nonce_b64 (put f.ciphertext_b64 []))),
        field-put f.salt_b64 (put f.nonce_b64 (put f.ciphertext_b64 [])),
        field-put f.nonce_b64 (put f.ciphertext_b64 []),
        field-put f.ciphertext_b64 [],
      )
      refl

plain-RoundTrips : RoundTrips plain
plain-RoundTrips = record {
  base64 = λ bytes. refl;
  hex = λ bytes. refl;
  json = λ f text e.
      let same_text : print f ≡ text = cc in
      subst (λ t. parse t ≡ some f) same_text (parse-print f);
  cipher = λ key nonce plaintext ciphertext e. sym e;
}

abbrev no_faults : Faults
no_faults = record {
  create_dir_all = false;
  set_dir_permissions = false;
  random_bytes = false;
  write = false;
  set_file_permissions = false;
  read_to_string = false;
}

abbrev empty_disk : Disk
empty_disk = record { files = λ path. none; modes = λ path. 0 }

abbrev nonce : List ℕ
nonce = 1 ∷ 2 ∷ 3 ∷ 4 ∷ 5 ∷ 6 ∷ 7 ∷ 8 ∷ 9 ∷ 10 ∷ 11 ∷ 12 ∷ []

abbrev dir : List ℕ
dir = ascii "/k"

abbrev bob : List ℕ
bob = ascii "bob"

abbrev bob_path : List ℕ
bob_path = ascii "/k/bob.json"

abbrev bob_disk : Disk
bob_disk = (save_identity plain no_faults [] nonce dir bob 7 (5 ∷ []) (9 ∷ []) empty_disk).0

load_identity-save_identity_example :
    (load_identity plain no_faults dir bob (9 ∷ []) bob_disk
      ≡ ok (record { did = 7; signing_key_bytes = 5 ∷ [] }))
    × (identity_exists dir bob bob_disk ≡ true)
    × ((path : List ℕ) × (key_file_path dir bob ≡ ok path) × (bob_disk.modes path ≡ 384))
unfolding save_identity key_file_path ascii le_bytes
load_identity-save_identity_example =
    load_identity-save_identity plain plain-RoundTrips no_faults no_faults [] nonce dir bob 7
      (5 ∷ []) (9 ∷ []) empty_disk (omega arith) refl refl refl

-- A second agent is saved beside the first.
load_identity-keeps_example :
    (load_identity plain no_faults dir bob
        (9 ∷ [])
        (save_identity plain no_faults [] nonce dir (ascii "eve") 8 (6 ∷ []) (9 ∷ []) bob_disk).0
      ≡ load_identity plain no_faults dir bob (9 ∷ []) bob_disk)
    × (identity_exists dir bob
          (save_identity plain no_faults [] nonce dir (ascii "eve") 8 (6 ∷ []) (9 ∷ []) bob_disk).0
        ≡ true)
unfolding save_identity identity_exists key_file_path ascii le_bytes same
load_identity-keeps_example =
    load_identity-keeps plain no_faults no_faults [] nonce dir (ascii "eve") 8 (6 ∷ []) (9 ∷ [])
      bob_disk bob (9 ∷ []) refl

abbrev bob_file : KeyFile
bob_file = record {
  version = 1;
  did_hex = le_bytes 32 7;
  salt_b64 = [];
  nonce_b64 = nonce;
  ciphertext_b64 = 5 ∷ [];
}

load_identity-forged_example :
    load_identity plain no_faults dir bob
      (9 ∷ [])
      (write_file bob_path (print (record bob_file { did_hex = le_bytes 32 99 })) bob_disk)
    ≡ ok (record { did = 99; signing_key_bytes = 5 ∷ [] })
unfolding load_identity save_identity key_file_path ascii le_bytes array_of same
load_identity-forged_example =
    load_identity-forged plain plain-RoundTrips no_faults dir bob bob_path (print bob_file)
      (print (record bob_file { did_hex = le_bytes 32 99 })) (9 ∷ []) bob_file
      (record { did = 7; signing_key_bytes = 5 ∷ [] }) 99 bob_disk refl refl refl refl refl
      (omega arith) refl

-- A node on which everything is accepted; its state counts the transactions.
abbrev willing : Node ℕ
willing = record {
  submit = λ who tx s. (
    suc s,
    some (
        record {
          pallet_name = "AgentRegistry";
          variant_name = "AgentRegistered";
          field_values = [];
        }
        ∷ []),
  );
  genesis_hash = λ s. 0;
  at_latest = λ s. some (3, 4);
}

abbrev keys : Signing
keys = record {
  verifying_key = λ seed. seed ∷ [];
  to_bytes = λ seed. seed ∷ [];
  sign = λ seed message. [];
}

abbrev draw : Draw
draw = record { signing_key = 5; salt = []; nonce = nonce }

abbrev bob_agent : RegisteredAgent
bob_agent = record { did = 17; signing_key_bytes = 5 ∷ [] }

abbrev agent_disk : Disk
agent_disk = (save_identity plain no_faults [] nonce dir bob 17 (5 ∷ []) (9 ∷ []) empty_disk).0

register_or_load_agent-again_example :
    register_or_load_agent willing length keys plain no_faults draw 2 dir bob
      (9 ∷ [])
      1
      []
      []
      (1, agent_disk)
    ≡ ((1, agent_disk), complete bob_agent)
unfolding register_or_load_agent register_agent save_identity identity_exists key_file_path ascii
    le_bytes call_and_confirm find_event
register_or_load_agent-again_example =
    register_or_load_agent-again willing length keys plain plain-RoundTrips no_faults no_faults draw
      draw 1 2 dir bob (9 ∷ []) 1 1 [] [] [] [] 0 1 empty_disk agent_disk bob_agent refl refl
      (omega arith) refl refl

-- The account of a seed is its length.
abbrev account_of : List ℕ → Option ℕ
account_of seed = some (length seed)

abbrev seed_of_32 : List ℕ
seed_of_32 = le_bytes 32 0

abbrev both_disk : Disk
both_disk =
    (save_identity plain no_faults [] nonce dir (account_label bob) 17 seed_of_32 (9 ∷ [])
      agent_disk).0

abbrev bootstrapped : BootstrappedAgent
bootstrapped = record { did = 17; account = 32 }

bootstrap_new_agent-again_example :
    bootstrap_new_agent willing length keys plain no_faults account_of draw no_faults [] [] [] 2 dir
      bob
      (9 ∷ [])
      10
      1
      []
      []
      (2, both_disk)
    ≡ ((2, both_disk), complete bootstrapped)
unfolding bootstrap_new_agent register_agent save_identity identity_exists key_file_path ascii
    le_bytes call_and_confirm find_event same
bootstrap_new_agent-again_example =
    bootstrap_new_agent-again willing length keys plain plain-RoundTrips account_of no_faults
      no_faults no_faults no_faults draw draw seed_of_32 [] nonce [] [] [] 1 2 dir bob (9 ∷ []) 10
      10 1 1 [] [] [] [] 0 2 empty_disk both_disk bootstrapped refl refl (omega arith) refl refl
      refl refl

register_or_load_agent-orphans_example :
    register_or_load_agent willing length keys plain no_faults draw 2 dir
      (ascii "a b")
      (9 ∷ [])
      1
      []
      []
      (0, empty_disk)
    ≡ ((1, empty_disk), broken (key_store (invalid_label (ascii "a b"))))
unfolding register_agent ascii call_and_confirm find_event all_label_chars validate_label
register_or_load_agent-orphans_example =
    register_or_load_agent-orphans willing length keys plain no_faults draw 2 dir (ascii "a b")
      (9 ∷ []) 1 [] [] 0 1 empty_disk bob_agent refl refl

bootstrap_new_agent-orphans_example :
    bootstrap_new_agent willing length keys plain no_faults account_of draw no_faults seed_of_32 []
      nonce 2 dir bob
      (9 ∷ [])
      10
      1
      []
      []
      (0, agent_disk)
    ≡ ((2, agent_disk), broken (key_store (already_exists bob)))
unfolding register_agent save_identity identity_exists key_file_path ascii le_bytes call_and_confirm
    find_event same
bootstrap_new_agent-orphans_example =
    bootstrap_new_agent-orphans willing length keys plain account_of no_faults no_faults draw
      seed_of_32 [] nonce 2 dir bob (9 ∷ []) 10 1 [] [] 0 1 2 agent_disk 32
      (record { pallet_name = "AgentRegistry"; variant_name = "AgentRegistered"; field_values = [] }
        ∷ [])
      bob_agent refl refl refl refl refl

-- The file of the account cannot be written: the agent is registered and its identity saved.
half_bootstrapped :
    bootstrap_new_agent willing length keys plain no_faults account_of draw
      (record no_faults { write = true })
      seed_of_32
      []
      nonce
      2
      dir
      bob
      (9 ∷ [])
      10
      1
      []
      []
      (0, empty_disk)
    ≡ ((2, set_mode dir 448 agent_disk), broken (key_store io))
unfolding bootstrap_new_agent register_agent save_identity identity_exists key_file_path ascii
    le_bytes call_and_confirm find_event same
half_bootstrapped = refl
