-- ===== src/Door/Routes.antt =====
-- What a request of offchain-agent-registry/src/bin/register-door.rs that is not POST /v1/finish does to what is
-- pending: it prepares a transaction, or it leaves it alone.
use arthneura_core.Base.{
  ℕ, ◌≡◌, refl, ◌⊎◌, inl, inr, Bool, true, false, Option, List, arith, Bool-cases, Option-cases,
  ◌∷◌,
}
use arthneura_core.Base.Bytes.{ascii}
use arthneura_core.Client.{Node}
use arthneura_core.Door.{
  Formats, Partial, Reply, Next, replied, prepared, handle_challenge, handle_prepare, handle_fund,
  handle_submit, handle_register, handle, with_json,
}
use arthneura_core.Door.Pending.{PendingMap}
use arthneura_core.Door.Requests.{starts_with, body_of}

-- A reply that gives out a token.
abbrev pub gives_token : Reply → Bool
gives_token reply = elim reply [ prepared named payload ↦ true | _ ↦ false ]

-- The tokens given out, the latest first, after a reply.
abbrev pub given : Reply → List (List ℕ) → List (List ℕ)
given reply tokens = elim reply [ prepared named payload ↦ named ∷ tokens | _ ↦ tokens ]

pub given-quiet :
    (reply : Reply) (tokens : List (List ℕ))
    → gives_token reply ≡ false
    → given reply tokens ≡ tokens
given-quiet (prepared named payload) tokens quiet = absurd (cc)
given-quiet reply tokens quiet = refl

module _ {S P J : Type 0} (node : Node S) (formats : Formats J) (partials : Partial S P)
    (blake2_256 : List ℕ → ℕ) (alice : ℕ) where
  -- Nothing is added to what is pending, and no token is given out.
  abbrev LeftAlone : PendingMap P → Next S P → Type 0
  LeftAlone pending next =
      (s' : S) (pending' : PendingMap P) (reply : Reply)
      → next ≡ replied s' pending' reply
      → (pending' ≡ pending) × (gives_token reply ≡ false)

  handle_challenge-LeftAlone :
      (line : List ℕ) (s : S) (pending : PendingMap P)
      → LeftAlone pending (handle_challenge node formats partials blake2_256 alice line s pending)
  unfolding handle_challenge
  handle_challenge-LeftAlone line s pending s' pending' reply e =
      elim (Option-cases (node.at_latest s)) [
        | inl none_there ↦ absurd (ground arith)
        | inr (at, latest) ↦ (ground arith, ground arith)
      ]

  handle_fund-LeftAlone :
      (fund_amount : Option ℕ) (v : J) (s : S) (pending : PendingMap P)
      → LeftAlone pending
          (handle_fund node formats partials blake2_256 alice fund_amount v s pending)
  unfolding handle_fund
  handle_fund-LeftAlone fund_amount v s pending s' pending' reply e = (ground arith, ground arith)

  handle_submit-LeftAlone :
      (trim : List ℕ → List ℕ) (v : J) (s : S) (pending : PendingMap P)
      → LeftAlone pending (handle_submit node formats partials blake2_256 alice trim v s pending)
  unfolding handle_submit
  handle_submit-LeftAlone trim v s pending s' pending' reply e = (ground arith, ground arith)

  handle_register-LeftAlone :
      (v : J) (s : S) (pending : PendingMap P)
      → LeftAlone pending (handle_register node formats partials blake2_256 alice v s pending)
  unfolding handle_register
  handle_register-LeftAlone v s pending s' pending' reply e = (ground arith, ground arith)

  -- A transaction is prepared from a request.
  abbrev pub Prepares : S → PendingMap P → S → PendingMap P → Reply → Type 0
  Prepares s pending s' pending' reply =
      (v : J) × (named : List ℕ) × (payload : List ℕ) × (reply ≡ prepared named payload)
      × (handle_prepare node formats partials blake2_256 alice v s pending
          ≡ replied s' pending' (prepared named payload))

  handle_prepare-refuses :
      (v : J) (s s' : S) (pending pending' : PendingMap P) (reply : Reply)
      → gives_token reply ≡ false
      → handle_prepare node formats partials blake2_256 alice v s pending
        ≡ replied s' pending' reply
      → pending' ≡ pending
  unfolding handle_prepare
  handle_prepare-refuses v s s' pending pending' reply quiet e = ground arith

  handle_prepare-cases :
      (v : J) (s s' : S) (pending pending' : PendingMap P) (reply : Reply)
      → handle_prepare node formats partials blake2_256 alice v s pending
        ≡ replied s' pending' reply
      → Prepares s pending s' pending' reply ⊎ ((pending' ≡ pending) × (gives_token reply ≡ false))
  handle_prepare-cases v s s' pending pending' (prepared named payload) e =
      inl (v, named, payload, refl, e)
  handle_prepare-cases v s s' pending pending' reply e =
      inr (handle_prepare-refuses v s s' pending pending' reply refl e, refl)

  -- Every other request than POST /v1/finish prepares a transaction or leaves alone what is pending.
  pub handle-cases :
      (fund_amount : Option ℕ) (trim : List ℕ → List ℕ) (req line : List ℕ) (s s' : S)
      (pending pending' : PendingMap P) (reply : Reply)
      → starts_with (ascii "POST /v1/finish") line ≡ false
      → handle node formats partials blake2_256 alice fund_amount trim req line s pending
        ≡ replied s' pending' reply
      → Prepares s pending s' pending' reply ⊎ ((pending' ≡ pending) × (gives_token reply ≡ false))
  unfolding handle
  handle-cases fund_amount trim req line s s' pending pending' reply unfinished e =
      elim (Bool-cases (starts_with (ascii "GET /v1/register/challenge") line)) [
        | inl challenge ↦ inr (
            handle_challenge-LeftAlone line s pending s' pending' reply
              (rw (handle, challenge) at e))
        | inr route1 ↦ elim (Option-cases (formats.from_str (body_of req))) [
          | inl bad ↦ inr (ground arith, ground arith)
          | inr (v, parsed) ↦ elim (Bool-cases (starts_with (ascii "POST /v1/prepare") line)) [
            | inl prepare ↦
                handle_prepare-cases v s s' pending pending' reply
                  (rw (handle, route1, prepare, with_json, parsed) at e)
            | inr route2 ↦ elim (Bool-cases (starts_with (ascii "POST /v1/fund") line)) [
              | inl fund ↦ inr (
                  handle_fund-LeftAlone fund_amount v s pending s' pending' reply
                    (rw (handle, route1, route2, unfinished, fund, with_json, parsed) at e))
              | inr route3 ↦ elim (Bool-cases (starts_with (ascii "POST /v1/submit") line)) [
                | inl submit ↦ inr (
                    handle_submit-LeftAlone trim v s pending s' pending' reply (
                      rw (handle, route1, route2, unfinished, route3, submit, with_json, parsed) at
                        e))
                | inr route4 ↦ elim (Bool-cases (starts_with (ascii "POST /v1/register") line)) [
                  | inl register ↦ inr (
                      handle_register-LeftAlone v s pending s' pending' reply (
                        rw
                          (
                            handle, route1, route2, unfinished, route3, route4, register, with_json,
                            parsed,
                          )
                          at e))
                  | inr route5 ↦ inr (ground arith, ground arith)
                ]
              ]
            ]
          ]
        ]
      ]
