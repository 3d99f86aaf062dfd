-- ===== src/Door/Tokens.antt =====
-- The tokens of offchain-agent-registry/src/bin/register-door.rs name the number of pending transactions, not how
-- many have been prepared: one that has been finished makes the next token one that may still be pending.
use arthneura_core.Base.{
  ℕ, suc, ◌-◌, ◌≡◌, ◌≢◌, sym, ◌∙◌, ◌||◌, not, some, List, [], ◌∷◌, arith, ◌==◌, inl, inr, length,
  Bool-cases, Option-cases,
}
use arthneura_core.Base.Bytes.{ascii}
use arthneura_core.Identity.{same}
use arthneura_core.Identity.Paths.{same-eq, same_refl}
use arthneura_core.Client.{Node}
use arthneura_core.Client.Arguments.{of_bytes}
use arthneura_core.Door.{
  unwrap_or, is_empty, registration, Formats, Partial, Reply, submit_partial, replied, prepared,
  text_field, hex_field, handle_prepare, handle_finish,
}
use arthneura_core.Door.Pending.{PendingMap, lookup, insert, remove, token}

module _ {P : Type 0} where
  length-remove :
      (t : List ℕ) (p : P) (pending : PendingMap P)
      → lookup t pending ≡ some p
      → suc (length (remove t pending)) ≡ length pending
  unfolding lookup remove
  length-remove t p [] found = absurd (cc)
  length-remove t p ((u, q) ∷ rest) found = elim (Bool-cases (same u t)) [
    | inl here ↦ ground arith
    | inr elsewhere ↦
        let later : lookup t rest ≡ some p = ground arith in
        let shorter = length-remove t p rest later in ground arith
  ]

  lookup-remove :
      (t u : List ℕ) (p : P) (pending : PendingMap P)
      → t ≢ u
      → lookup u pending ≡ some p
      → lookup u (remove t pending) ≡ some p
  unfolding lookup remove
  lookup-remove t u p [] other found = absurd (cc)
  lookup-remove t u p ((v, q) ∷ rest) other found = elim (Bool-cases (same v t)) [
    | inl here ↦
        let v_is_t = same-eq v t here in
        elim (Bool-cases (same v u)) [
          | inl both ↦ let v_is_u = same-eq v u both in absurd (other (sym v_is_t ∙ v_is_u))
          | inr not_u ↦ ground arith
        ]
    | inr elsewhere ↦ elim (Bool-cases (same v u)) [
      | inl is_u ↦ ground arith
      | inr not_u ↦
          let later : lookup u rest ≡ some p = ground arith in
          let kept = lookup-remove t u p rest other later in ground arith
    ]
  ]

  pub lookup-insert :
      (t : List ℕ) (q : P) (pending : PendingMap P) → lookup t (insert t q pending) ≡ some q
  unfolding lookup insert
  lookup-insert t q [] = ground (arith, same_refl t)
  lookup-insert t q ((u, p) ∷ rest) = elim (Bool-cases (same u t)) [
    | inl here ↦ ground arith
    | inr elsewhere ↦ ground (arith, lookup-insert t q rest)
  ]

  length-insert :
      (t : List ℕ) (p q : P) (pending : PendingMap P)
      → lookup t pending ≡ some p
      → length (insert t q pending) ≡ length pending
  unfolding lookup insert
  length-insert t p q [] found = absurd (cc)
  length-insert t p q ((u, r) ∷ rest) found = elim (Bool-cases (same u t)) [
    | inl here ↦ ground arith
    | inr elsewhere ↦
        let later : lookup t rest ≡ some p = ground arith in
        let as_long = length-insert t p q rest later in ground arith
  ]

module _ {S P J : Type 0} (node : Node S) (formats : Formats J) (partials : Partial S P)
    (blake2_256 : List ℕ → ℕ) (alice : ℕ) where
  submit_partial-rest :
      (partial : P) (account : ℕ) (sigb : List ℕ) (s s' : S) (rest rest' : PendingMap P)
      (reply : Reply)
      → submit_partial node formats partials blake2_256 alice partial account sigb s rest
        ≡ replied s' rest' reply
      → rest' ≡ rest
  unfolding submit_partial
  submit_partial-rest partial account sigb s s' rest rest' reply e =
      elim (Bool-cases (partials.reachable s)) [
        | inr cut_off ↦ absurd (ground arith)
        | inl reached ↦ elim (Option-cases (partials.submit_signed partial account sigb s).1) [
          | inl refused ↦ ground arith
          | inr (hash, sent) ↦ ground arith
        ]
      ]

  -- A transaction that is finished is no longer pending, whether or not the chain takes it.
  pub handle_finish-removes :
      (v : J) (s s' : S) (pending rest : PendingMap P) (partial : P) (reply : Reply)
      → length (hex_field formats (ascii "signature") v) ≡ 64
      → length (hex_field formats (ascii "account") v) ≡ 32
      → lookup (text_field formats (ascii "token") v) pending ≡ some partial
      → handle_finish node formats partials blake2_256 alice v s pending ≡ replied s' rest reply
      → rest ≡ remove (text_field formats (ascii "token") v) pending
  unfolding handle_finish
  handle_finish-removes v s s' pending rest partial reply sig acc found e =
      let named = text_field formats (ascii "token") v in
      let sigb = hex_field formats (ascii "signature") v in
      let account = of_bytes (hex_field formats (ascii "account") v) in
      submit_partial-rest partial account sigb s s' (remove named pending) rest reply (ground arith)

  pub handle_prepare-prepared :
      (v : J) (s s' : S) (pending pending' : PendingMap P) (named payload : List ℕ)
      → handle_prepare node formats partials blake2_256 alice v s pending
        ≡ replied s' pending' (prepared named payload)
      → (new : P) × (named ≡ token (length pending))
        × (pending' ≡ insert (token (length pending)) new pending)
        × (payload ≡ formats.hex_encode (partials.signer_payload new))
  unfolding handle_prepare
  handle_prepare-prepared v s s' pending pending' named payload e =
      let account = hex_field formats (ascii "account") v in
      let pubkey = hex_field formats (ascii "pubkey") v in
      let signature = hex_field formats (ascii "signature") v in
      let signed_at_block = unwrap_or 0 (formats.as_u64 (ascii "signed_at_block") v) in
      let tx =
        registration pubkey signature signed_at_block (text_field formats (ascii "label") v) in
      elim (Bool-cases (
        ((not (length account == 32) || is_empty pubkey) || is_empty signature)
        || (signed_at_block == 0))) [
          | inl incomplete ↦ absurd (ground arith)
          | inr complete ↦
              elim (Option-cases (partials.create_partial_signed tx (of_bytes account) s)) [
                | inl refused ↦ absurd (ground arith)
                | inr (new, created) ↦ (new, ground arith, ground arith, ground arith)
              ]
        ]

  -- Finishing one transaction makes the next one that is prepared replace another. If the transaction with
  -- the last token is pending (as it is when tokens have been given out one by one) and another one is
  -- finished, the next prepared transaction is given that same token, and takes the place of the one that
  -- was pending under it.
  pub handle_finish-then_prepare :
      (v w : J) (s s' s'' : S) (pending rest pending' : PendingMap P) (partial victim : P)
      (reply : Reply) (named payload : List ℕ)
      → length (hex_field formats (ascii "signature") v) ≡ 64
      → length (hex_field formats (ascii "account") v) ≡ 32
      → lookup (text_field formats (ascii "token") v) pending ≡ some partial
      → text_field formats (ascii "token") v ≢ token (length pending - 1)
      → lookup (token (length pending - 1)) pending ≡ some victim
      → handle_finish node formats partials blake2_256 alice v s pending ≡ replied s' rest reply
      → handle_prepare node formats partials blake2_256 alice w s' rest
        ≡ replied s'' pending' (prepared named payload)
      → (new : P) × (named ≡ token (length pending - 1))
        × (lookup named rest ≡ some victim)
        × (lookup named pending' ≡ some new)
        × (payload ≡ formats.hex_encode (partials.signer_payload new))
        × (length pending' ≡ length rest)
  handle_finish-then_prepare v w s s' s'' pending rest pending' partial victim reply named payload
        sig acc found other last finished next =
      let done_token = text_field formats (ascii "token") v in
      let removed =
        handle_finish-removes v s s' pending rest partial reply sig acc found finished in
      let (new, is_named, inserted, shown) =
        handle_prepare-prepared w s' s'' rest pending' named payload next in
      let shorter = length-remove done_token partial pending found in
      let size : length rest ≡ length pending - 1 = rw removed (omega arith) in
      let same_token : named ≡ token (length pending - 1) = rw size at is_named in
      let kept : lookup named rest ≡ some victim =
        rw (removed, same_token)
          (lookup-remove done_token (token (length pending - 1)) victim pending other last) in
      let inserted_named : pending' ≡ insert named new rest = rw is_named inserted in
      (
        new,
        same_token,
        kept,
        rw inserted_named (lookup-insert named new rest),
        shown,
        rw inserted_named (length-insert named victim new rest kept),
      )
