-- ===== src/Door/Fresh.antt =====
-- As long as nothing is finished, offchain-agent-registry/src/bin/register-door.rs gives each prepared transaction a
-- token of its own.
use arthneura_core.Base.{
  ℕ, suc, ◌≤◌, ◌≡◌, ◌≢◌, refl, sym, ◌∙◌, Option, false, none, some, List, [], ◌∷◌, arith, inl, inr,
  length, Bool-cases,
}
use arthneura_core.Identity.{same}
use arthneura_core.Identity.Paths.{same-eq}
use arthneura_core.Client.{Node}
use arthneura_core.Door.{Formats, Partial, Reply, replied, prepared, handle_prepare, handle}
use arthneura_core.Door.Pending.{PendingMap, lookup, insert, token}
use arthneura_core.Door.Requests.{starts_with}
use arthneura_core.Door.Routes.{given, given-quiet, handle-cases}
use arthneura_core.Base.Bytes.{ascii}
use arthneura_core.Door.Tokens.{lookup-insert, handle_prepare-prepared}
use arthneura_core.Door.Decimal.{token-injective}

-- The tokens are all different.
abbrev pub Absent : List ℕ → List (List ℕ) → Type 0
Absent t [] = Unit
Absent t (u ∷ us) = (t ≢ u) × Absent t us

abbrev pub Distinct : List (List ℕ) → Type 0
Distinct [] = Unit
Distinct (t ∷ ts) = Absent t ts × Distinct ts

module _ {P : Type 0} where
  -- No token from the number of pending transactions on is in use.
  abbrev pub IsFresh : PendingMap P → Type 0
  IsFresh pending = (n : ℕ) → length pending ≤ n → lookup (token n) pending ≡ none

  -- The tokens all stand for pending transactions.
  abbrev pub AllPending : List (List ℕ) → PendingMap P → Type 0
  AllPending [] pending = Unit
  AllPending (t ∷ ts) pending = ((p : P) × (lookup t pending ≡ some p)) × AllPending ts pending

  length-insert_new :
      (t : List ℕ) (q : P) (pending : PendingMap P)
      → lookup t pending ≡ none
      → length (insert t q pending) ≡ suc (length pending)
  unfolding lookup insert
  length-insert_new t q [] missing = refl
  length-insert_new t q ((u, p) ∷ rest) missing = elim (Bool-cases (same u t)) [
    | inl here ↦ absurd (ground arith)
    | inr elsewhere ↦
        let later : lookup t rest ≡ none = ground arith in
        let longer = length-insert_new t q rest later in ground arith
  ]

  lookup-insert_other :
      (t u : List ℕ) (q : P) (pending : PendingMap P)
      → t ≢ u
      → lookup u (insert t q pending) ≡ lookup u pending
  unfolding lookup insert
  lookup-insert_other t u q [] other = elim (Bool-cases (same t u)) [
    | inl equal ↦ absurd (other (same-eq t u equal))
    | inr unequal ↦ ground arith
  ]
  lookup-insert_other t u q ((v, p) ∷ rest) other =
      let later = lookup-insert_other t u q rest other in
      elim (Bool-cases (same v t)) [
        | inl here ↦
            let v_is_t = same-eq v t here in
            elim (Bool-cases (same v u)) [
              | inl both ↦ let v_is_u = same-eq v u both in absurd (other (sym v_is_t ∙ v_is_u))
              | inr not_u ↦ ground arith
            ]
        | inr elsewhere ↦ ground arith
      ]

  pub empty_IsFresh : IsFresh []
  unfolding lookup
  empty_IsFresh n big = refl

module _ {S P J : Type 0} (node : Node S) (formats : Formats J) (partials : Partial S P)
    (blake2_256 : List ℕ → ℕ) (alice : ℕ) where
  -- Where no token from the number of pending transactions on is in use, a transaction that is prepared gets
  -- a token that is not in use, whatever was pending still is, and again no token from their number on is
  -- in use.
  handle_prepare-IsFresh :
      (v : J) (s s' : S) (pending pending' : PendingMap P) (named payload : List ℕ)
      → IsFresh pending
      → handle_prepare node formats partials blake2_256 alice v s pending
        ≡ replied s' pending' (prepared named payload)
      → (lookup named pending ≡ none)
        × ((p : P) × (lookup named pending' ≡ some p))
        × ((t : List ℕ) (p : P) → lookup t pending ≡ some p → lookup t pending' ≡ some p)
        × IsFresh pending'
  handle_prepare-IsFresh v s s' pending pending' named payload fresh e =
      let (new, is_named, inserted, shown) =
        handle_prepare-prepared node formats partials blake2_256 alice v s s' pending pending' named
          payload e in
      let size = length pending in
      let unused : lookup (token size) pending ≡ none = fresh size (omega arith) in
      let longer : length pending' ≡ suc size =
        rw inserted (length-insert_new (token size) new pending unused) in
      (
        rw is_named unused,
        (new, rw (inserted, is_named) (lookup-insert (token size) new pending)),
        λ t p found.
            let other : token size ≢ t =
              λ h. let none_is_some : none ≡ some p = rw h at (sym unused) ∙ found in absurd (cc) in
            rw inserted (lookup-insert_other (token size) t new pending other ∙ found),
        λ n big.
            let other : token size ≢ token n =
              λ h. let equal = token-injective size n h in absurd (omega arith) in
            rw inserted (
              lookup-insert_other (token size) (token n) new pending other ∙ fresh n (omega arith)),
      )

  AllPending-kept :
      (tokens : List (List ℕ)) (pending pending' : PendingMap P)
      → ((t : List ℕ) (p : P) → lookup t pending ≡ some p → lookup t pending' ≡ some p)
      → AllPending tokens pending
      → AllPending tokens pending'
  AllPending-kept [] pending pending' kept all = tt
  AllPending-kept (t ∷ ts) pending pending' kept ((p, found), all) =
      ((p, kept t p found), AllPending-kept ts pending pending' kept all)

  Absent-unused :
      (named : List ℕ) (tokens : List (List ℕ)) (pending : PendingMap P)
      → lookup named pending ≡ none
      → AllPending tokens pending
      → Absent named tokens
  Absent-unused named [] pending unused all = tt
  Absent-unused named (t ∷ ts) pending unused ((p, found), all) = (
    λ h. let none_is_some : none ≡ some p = rw h at (sym unused) ∙ found in absurd (cc),
    Absent-unused named ts pending unused all,
  )

  module _ (fund_amount : Option ℕ) (trim : List ℕ → List ℕ) where
    -- A history of the server in which nothing is finished: it starts with nothing pending, serves
    -- requests of every route but POST /v1/finish, and the chain goes on between them. The tokens are
    -- those that have been given out, the latest first.
    pub data Unfinished : S → PendingMap P → List (List ℕ) → Type 0 where
      starts : (s : S) → Unfinished s [] []
      waits :
          (s s' : S) (pending : PendingMap P) (tokens : List (List ℕ))
          → Unfinished s pending tokens
          → Unfinished s' pending tokens
      serves :
          (req line : List ℕ) (s s' : S) (pending pending' : PendingMap P) (tokens : List (List ℕ))
          (reply : Reply)
          → Unfinished s pending tokens
          → starts_with (ascii "POST /v1/finish") line ≡ false
          → handle node formats partials blake2_256 alice fund_amount trim req line s pending
            ≡ replied s' pending' reply
          → Unfinished s' pending' (given reply tokens)

    -- Over any history from the start of the server in which nothing is finished, all the tokens that have been
    -- given out are different, each still stands for a pending transaction, and no token from the number of
    -- pending transactions on is in use.
    pub Unfinished-Distinct :
        (s : S) (pending : PendingMap P) (tokens : List (List ℕ))
        → Unfinished s pending tokens
        → Distinct tokens × AllPending tokens pending × IsFresh pending
    Unfinished-Distinct s pending tokens (starts _) = (tt, tt, empty_IsFresh)
    Unfinished-Distinct s' pending tokens (waits s _ _ _ before) =
        Unfinished-Distinct s pending tokens before
    Unfinished-Distinct s' pending' _
          (serves req line s _ pending _ tokens reply before unfinished e) =
        let (distinct, all, fresh) = Unfinished-Distinct s pending tokens before in
        elim (handle-cases node formats partials blake2_256 alice fund_amount trim req line s s'
          pending pending' reply unfinished e) [
            | inl (v, named, payload, is, made) ↦
                let (unused, there, kept, fresh') =
                  handle_prepare-IsFresh v s s' pending pending' named payload fresh made in
                rw is (
                  (Absent-unused named tokens pending unused all, distinct),
                  (there, AllPending-kept tokens pending pending' kept all),
                  fresh',
                )
            | inr (same_pending, quiet) ↦
                rw (given-quiet reply tokens quiet, same_pending) (distinct, all, fresh)
          ]
