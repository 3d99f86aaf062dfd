-- ===== src/Door.antt =====
-- offchain-agent-registry/src/bin/register-door.rs: a local HTTP server through which an agent without funds is
-- registered. A request is its text, in UTF-8 bytes, after it has been read. What is pending between the
-- routes `prepare` and `finish` is the state of the server, beside that of the chain. JSON, hexadecimal text
-- and what `subxt` does with a transaction that another party signs are parameters.
pub mod Pending
pub mod Requests
pub mod Tokens
pub mod Decimal
pub mod Fresh
pub mod Routes
mod Tests
use arthneura_core.Base.{
  ℕ, zero, suc, ◌+◌, ◌/◌, ◌%◌, ◌^◌, Bool, true, false, ◌&&◌, ◌||◌, not, Option, none, some, List,
  [], ◌∷◌, ◌++◌, ◌==◌, ltb, if◌then◌else◌, length,
}
use arthneura_core.Base.Bytes.{ascii, le_bytes}
use arthneura_core.Client.{Node, Tx, CallResult, done, failed, from_bytes, u128, unnamed_variant}
use arthneura_core.Client.Arguments.{of_bytes}
use arthneura_core.Client.Agents.{submit_signed_registration}
use arthneura_core.Door.Pending.{PendingMap, lookup, insert, remove, token}
use arthneura_core.Door.Requests.{starts_with, body_of, account_parameter, trim_0x}

-- `serde_json`, `hex`, and the dynamic fields of a JSON value.
pub record Formats (J : Type 0) : Type 0 where
  pub from_str : List ℕ → Option J
  pub as_str : List ℕ → J → Option (List ℕ)
  pub as_u64 : List ℕ → J → Option ℕ
  pub hex_encode : List ℕ → List ℕ
  pub hex_decode : List ℕ → Option (List ℕ)

-- Of `subxt`: a transaction prepared for an account to sign, and the submission of one with its
-- signature and of an extrinsic that is already encoded. A node that cannot be reached for the dry run
-- ends the program.
pub record Partial (S P : Type 0) : Type 0 where
  pub create_partial_signed : Tx → ℕ → S → Option P
  pub signer_payload : P → List ℕ
  pub reachable : S → Bool
  pub dry_run : P → ℕ → List ℕ → S → List ℕ
  pub submit_signed : P → ℕ → List ℕ → S → S × Option ℕ
  pub author_submit_extrinsic : List ℕ → S → S × Option (List ℕ)

-- The replies, by the bodies that the source gives them: 200 for those that carry data, and 400 or, for
-- the last, 404 for the errors.
pub data Reply : Type 0 where
  challenged : List ℕ → List ℕ → ℕ → List ℕ → Reply
  prepared : List ℕ → List ℕ → Reply
  submitted : List ℕ → List ℕ → Reply
  forwarded : List ℕ → Reply
  funded : Reply
  registered : List ℕ → Reply
  bad_json : Reply
  fields_required : Reply
  unknown_token : Reply
  call_failed : Reply
  not_found : Reply

-- What the loop does after a request: it goes on, or the program ends.
pub data Next (S P : Type 0) : Type 0 where
  replied : S → PendingMap P → Reply → Next S P
  stopped : Next S P

abbrev pub unwrap_or {ℓ} : {A : Type ℓ} → A → Option A → A
unwrap_or a none = a
unwrap_or a (some b) = b

module _ {J : Type 0} (formats : Formats J) where
  -- `v[name].as_str().unwrap_or("")`
  abbrev pub text_field : List ℕ → J → List ℕ
  text_field name v = unwrap_or [] (formats.as_str name v)

  -- The bytes of a field in hexadecimal form, none where it is not that.
  abbrev pub hex_field : List ℕ → J → List ℕ
  hex_field name v = unwrap_or [] (formats.hex_decode (trim_0x (text_field name v)))

abbrev pub is_empty : List ℕ → Bool
is_empty xs = length xs == 0

-- The transaction that POST /v1/prepare prepares.
abbrev pub registration : List ℕ → List ℕ → ℕ → List ℕ → Tx
registration pubkey signature signed_at_block label = record {
  pallet_name = "AgentRegistry";
  call_name = "register_agent";
  args =
      from_bytes pubkey
      ∷ from_bytes signature
      ∷ u128 signed_at_block
      ∷ u128 1
      ∷ from_bytes (ascii "door")
      ∷ from_bytes label
      ∷ [];
}

module _ {S P J : Type 0} (node : Node S) (formats : Formats J) (partials : Partial S P)
    (blake2_256 : List ℕ → ℕ) (alice : ℕ) where
  -- GET /v1/register/challenge
  unfoldable pub handle_challenge : List ℕ → S → PendingMap P → Next S P
  unfolding account_parameter
  handle_challenge line s pending = elim (node.at_latest s) [
    | none ↦ stopped
    | some (block, hash) ↦
        let account = account_parameter line in
        let controller =
          if length account == 64 then account else formats.hex_encode (le_bytes 32 alice) in
        replied s pending (
          challenged (formats.hex_encode (le_bytes 32 (node.genesis_hash s))) controller block
            (formats.hex_encode (le_bytes 32 hash)))
  ]

  -- POST /v1/prepare
  unfoldable pub handle_prepare : J → S → PendingMap P → Next S P
  unfolding ascii of_bytes trim_0x
  handle_prepare v s pending =
      let account = hex_field formats (ascii "account") v in
      let pubkey = hex_field formats (ascii "pubkey") v in
      let signature = hex_field formats (ascii "signature") v in
      let signed_at_block = unwrap_or 0 (formats.as_u64 (ascii "signed_at_block") v) in
      let label = text_field formats (ascii "label") v in
      if ((not (length account == 32) || is_empty pubkey) || is_empty signature)
        || (signed_at_block == 0)
      then replied s pending fields_required
      else elim (partials.create_partial_signed
          (registration pubkey signature signed_at_block label) (of_bytes account) s) [
            | none ↦ replied s pending call_failed
            | some partial ↦ replied s (insert (token (length pending)) partial pending) (
                prepared (token (length pending))
                  (formats.hex_encode (partials.signer_payload partial)))
          ]

  -- The end of POST /v1/finish, when the transaction is no longer pending.
  unfoldable pub submit_partial : P → ℕ → List ℕ → S → PendingMap P → Next S P
  submit_partial partial account sigb s rest =
      if not (partials.reachable s)
      then stopped
      else let dry = partials.dry_run partial account sigb s in
        let (s', sent) = partials.submit_signed partial account sigb s in
        elim sent [
          | none ↦ replied s' rest call_failed
          | some hash ↦ replied s' rest (submitted (formats.hex_encode (le_bytes 32 hash)) dry)
        ]

  -- POST /v1/finish
  unfoldable pub handle_finish : J → S → PendingMap P → Next S P
  unfolding ascii of_bytes trim_0x submit_partial
  handle_finish v s pending =
      let token = text_field formats (ascii "token") v in
      let sigb = hex_field formats (ascii "signature") v in
      let account = hex_field formats (ascii "account") v in
      if not (length sigb == 64) || not (length account == 32)
      then replied s pending fields_required
      else elim (lookup token pending) [
        | none ↦ replied s pending unknown_token
        | some partial ↦ submit_partial partial (of_bytes account) sigb s (remove token pending)
      ]

  -- POST /v1/fund; `fund_amount` is the variable `FUND_AMOUNT` of the environment.
  unfoldable pub handle_fund : Option ℕ → J → S → PendingMap P → Next S P
  unfolding ascii trim_0x
  handle_fund fund_amount v s pending =
      let account = hex_field formats (ascii "account") v in
      if not (length account == 32)
      then replied s pending fields_required
      else let (s', sent) =
          node.submit alice
            (record {
              pallet_name = "Balances";
              call_name = "transfer_keep_alive";
              args =
                  unnamed_variant "Id" (account ∷ [])
                  ∷ u128 (unwrap_or 101000000000000 fund_amount)
                  ∷ [];
            })
            s in
        elim sent [
          | none ↦ replied s' pending call_failed
          | some events ↦ replied s' pending funded
        ]

  -- POST /v1/submit; `trim` is of white space.
  unfoldable pub handle_submit : (List ℕ → List ℕ) → J → S → PendingMap P → Next S P
  unfolding ascii trim_0x
  handle_submit trim v s pending =
      let tx_hex = trim_0x (trim (text_field formats (ascii "tx") v)) in
      if is_empty (unwrap_or [] (formats.hex_decode tx_hex))
      then replied s pending fields_required
      else let (s', sent) = partials.author_submit_extrinsic (ascii "0x" ++ tx_hex) s in
        elim sent [
          | none ↦ replied s' pending call_failed
          | some hash ↦ replied s' pending (forwarded hash)
        ]

  -- POST /v1/register
  unfoldable pub handle_register : J → S → PendingMap P → Next S P
  unfolding ascii trim_0x
  handle_register v s pending =
      let pubkey = hex_field formats (ascii "pubkey") v in
      let signature = hex_field formats (ascii "signature") v in
      let signed_at_block = unwrap_or 0 (formats.as_u64 (ascii "signed_at_block") v) % 2 ^ 32 in
      let label = text_field formats (ascii "label") v in
      if (is_empty pubkey || is_empty signature) || (signed_at_block == 0)
      then replied s pending fields_required
      else let (s', result) =
          submit_signed_registration node blake2_256 alice pubkey signature signed_at_block 1
            (ascii "door") label s in
        elim result [
          | done did ↦ replied s' pending (registered (formats.hex_encode (le_bytes 32 did)))
          | failed e ↦ replied s' pending call_failed
        ]

  -- The five routes that take a JSON body.
  abbrev pub with_json : List ℕ → (J → S → PendingMap P → Next S P) → S → PendingMap P → Next S P
  with_json req handler s pending = elim (formats.from_str (body_of req)) [
    | none ↦ replied s pending bad_json
    | some v ↦ handler v s pending
  ]

  -- The body of the loop, for a request and its first line.
  unfoldable pub handle :
      Option ℕ → (List ℕ → List ℕ) → List ℕ → List ℕ → S → PendingMap P → Next S P
  unfolding handle_challenge handle_prepare handle_finish handle_fund handle_submit handle_register
  handle fund_amount trim req line s pending =
      if starts_with (ascii "GET /v1/register/challenge") line
      then handle_challenge line s pending
      else if starts_with (ascii "POST /v1/prepare") line
      then with_json req handle_prepare s pending
      else if starts_with (ascii "POST /v1/finish") line
      then with_json req handle_finish s pending
      else if starts_with (ascii "POST /v1/fund") line
      then with_json req (handle_fund fund_amount) s pending
      else if starts_with (ascii "POST /v1/submit") line
      then with_json req (handle_submit trim) s pending
      else if starts_with (ascii "POST /v1/register") line
      then with_json req handle_register s pending
      else replied s pending not_found
