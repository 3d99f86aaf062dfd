-- ===== src/Command.antt =====
-- offchain-vector-db/src/main.rs: the program around the clients, which takes what it does from environment
-- variables and prints the outcome. A text is its UTF-8 bytes; `str::trim`, the hexadecimal form and the
-- accounts of secret keys are parameters, and the node is taken to be reached.
pub mod Actions
pub mod Misreport
mod Tests
use arthneura_core.Base.{
  ℕ, ◌+◌, ◌*◌, ◌-◌, ◌^◌, Bool, true, false, ◌&&◌, not, Option, none, some, List, [], ◌∷◌, ◌==◌, ltb,
  leb, if◌then◌else◌, length,
}
use arthneura_core.Base.Bytes.{ascii, le_bytes}
use arthneura_core.VectorDb.{Hashing}
use arthneura_core.Offchain.{Trees}
use arthneura_core.Offchain.Store.{Store}
use arthneura_core.Identity.{same}
use arthneura_core.Door.Requests.{trim_0x}
use arthneura_core.Client.{Node, CallResult, done, failed, unnamed_variant, u128}
use arthneura_core.Client.Arguments.{array_of}
use arthneura_core.Client.Commitments.{
  RegisterCommitmentResult, ClientResult, complete, rejected, storage, call_error,
  acknowledge_commitment, close_commitment, raise_dispute, finalize_dispute, register_commitment,
  counter_dispute,
}

-- What is printed on success.
pub data Line : Type 0 where
  balance_raw : List ℕ → List ℕ → Line
  balance_missing : List ℕ → Line
  raise_ok : Line
  counter_ok : Line
  finalize_ok : Line
  acknowledged : ℕ → Line
  transfer_ok : Line
  closed : ℕ → Line
  registered : ℕ → ℕ → ℕ → Line

-- How the program ends: with a line, with an error that `main` returns, with the exit code 1, or with a
-- panic.
pub data Exit : Type 0 where
  printed : Line → Exit
  returned_error : Exit
  exited : Exit
  panicked : Exit

-- The system around the program.
pub record Shell : Type 0 where
  pub var : List ℕ → Option (List ℕ)
  pub trim : List ℕ → List ℕ
  pub hex_decode : List ℕ → Option (List ℕ)
  pub from_secret_key : List ℕ → Option ℕ
  pub alice : ℕ
  pub bob : ℕ

-- The digits of a number below `limit`, after the number `n`.
unfoldable pub digits : ℕ → ℕ → List ℕ → Option ℕ
digits limit n [] = some n
digits limit n (c ∷ cs) =
    let next = 10 * n + (c - 48) in
    let rest = digits limit next cs in
    if ((leb 48 c && leb c 57) && ltb next limit) then rest else none

-- `str::parse` to an unsigned integer of `w` bits.
unfoldable pub parse_uint : ℕ → List ℕ → Option ℕ
unfolding digits
parse_uint w [] = none
parse_uint w (c ∷ []) = if c == 43 then none else digits (2 ^ w) 0 (c ∷ [])
parse_uint w (c ∷ d ∷ cs) =
    if c == 43 then digits (2 ^ w) 0 (d ∷ cs) else digits (2 ^ w) 0 (c ∷ d ∷ cs)

abbrev pub is_empty : List ℕ → Bool
is_empty text = length text == 0

module _ (shell : Shell) where
  unfoldable pub hex32 : List ℕ → Option ℕ
  unfolding array_of trim_0x
  hex32 name = elim (shell.var name) [
    | none ↦ none
    | some raw ↦ elim (shell.hex_decode (trim_0x (shell.trim raw))) [
      | none ↦ none
      | some b ↦ array_of b
    ]
  ]

  -- A number in a variable, or a default where there is none.
  unfoldable pub uint_or : ℕ → List ℕ → ℕ → ℕ
  unfolding parse_uint
  uint_or w name default = elim (shell.var name) [
    | none ↦ default
    | some text ↦ elim (parse_uint w text) [ none ↦ default | some n ↦ n ]
  ]

  -- The account of `CONTROLLER_SEED`, `none` where it is no seed, which is a panic; and `other` where there is
  -- none.
  unfoldable pub controller_or : Option ℕ → Option ℕ
  unfolding array_of ascii trim_0x
  controller_or other = elim (shell.var (ascii "CONTROLLER_SEED")) [
    | none ↦ other
    | some s ↦
        if is_empty (shell.trim s)
        then other
        else elim (shell.hex_decode (trim_0x (shell.trim s))) [
          | none ↦ none
          | some raw ↦ if length raw == 32 then shell.from_secret_key raw else none
        ]
  ]

  abbrev pub text_or : List ℕ → List ℕ → List ℕ
  text_or name default = elim (shell.var name) [ none ↦ default | some text ↦ text ]

  unfoldable pub signer_from_env : Option ℕ
  unfolding controller_or ascii
  signer_from_env = controller_or (
      some (
        if same (text_or (ascii "SIGNER") (ascii "bob")) (ascii "alice")
        then shell.alice
        else shell.bob))

  -- `MERKLE_ROOT`, if it is a root.
  unfoldable pub provided_root : Option ℕ
  unfolding hex32 ascii
  provided_root = hex32 (ascii "MERKLE_ROOT")

  -- The payload and the metadata of a registration.
  unfoldable pub payload_from_env : List ℕ
  unfolding ascii
  payload_from_env =
      let text = text_or (ascii "PAYLOAD") [] in
      if is_empty text then ascii "arthneura stamp payload" else text

  unfoldable pub metadata_from_env : List ℕ
  unfolding ascii
  metadata_from_env = elim (shell.var (ascii "SCHEMA")) [
    | none ↦ ascii "csv.v1"
    | some s ↦ if is_empty (shell.trim s) then ascii "csv.v1" else shell.trim s
  ]
