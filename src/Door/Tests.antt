-- ===== src/Door/Tests.antt =====
-- The server on concrete requests. The fields of a JSON value are a function; hexadecimal text is the bytes
-- themselves.
use arthneura_core.Base.{
  ℕ, suc, ◌≡◌, ◌≢◌, refl, true, false, Option, none, some, List, [], ◌∷◌, if◌then◌else◌, length,
}
use arthneura_core.Base.Bytes.{ascii, le_bytes}
use mathlib.Core.Path.{subst}
use arthneura_core.Identity.{same}
use arthneura_core.Identity.Paths.{same_refl}
use arthneura_core.Client.{Node}
use arthneura_core.Client.Arguments.{of_bytes}
use arthneura_core.Door.{
  Formats, Partial, replied, prepared, submitted, not_found, handle, handle_finish, handle_prepare,
  submit_partial,
}
use arthneura_core.Door.Pending.{PendingMap, lookup, insert, remove, token, decimal}
use arthneura_core.Door.Requests.{
  starts_with, strip_prefix, split, find_account, account_parameter, body_of, after_blank,
  before_blank, blank_line, trim_0x,
}
use arthneura_core.Door.Fresh.{
  IsFresh, Distinct, AllPending, Unfinished, starts, waits, serves, Unfinished-Distinct,
}
use arthneura_core.Door.Tokens.{handle_finish-then_prepare}

abbrev Fields : Type 0
Fields = List ℕ → Option (List ℕ)

abbrev formats : Formats Fields
formats = record {
  from_str = λ text. some (λ name. none);
  as_str = λ name v. v name;
  as_u64 = λ name v. some 3;
  hex_encode = λ bytes. bytes;
  hex_decode = λ text. some text;
}

-- What is prepared is known by the account, and the state counts the submissions.
abbrev partials : Partial ℕ ℕ
partials = record {
  create_partial_signed = λ tx account s. some account;
  signer_payload = λ p. p ∷ [];
  reachable = λ s. true;
  dry_run = λ p account sigb s. [];
  submit_signed = λ p account sigb s. (suc s, some 5);
  author_submit_extrinsic = λ text s. (suc s, some text);
}

abbrev node : Node ℕ
node = record {
  submit = λ who tx s. (suc s, some []);
  genesis_hash = λ s. 0;
  at_latest = λ s. some (3, 4);
}

abbrev finish_first : Fields
finish_first name =
    if same name (ascii "token")
    then some (token 0)
    else if same name (ascii "signature")
    then some (le_bytes 64 0)
    else some (le_bytes 32 1)

abbrev prepare_again : Fields
prepare_again name = if same name (ascii "account") then some (le_bytes 32 9) else some (7 ∷ [])

-- Two transactions have been prepared.
abbrev two_pending : PendingMap ℕ
two_pending = (token 0, 100) ∷ (token 1, 200) ∷ []

one_hundred_and_five : token 105 ≡ ascii "p105"
unfolding token decimal ascii
one_hundred_and_five = refl

asked_account :
    account_parameter (ascii "GET /v1/register/challenge?x=1&account=ab HTTP/1.1") ≡ ascii "ab"
unfolding account_parameter find_account split strip_prefix ascii
asked_account = refl

second_part : body_of (1 ∷ 13 ∷ 10 ∷ 13 ∷ 10 ∷ 2 ∷ 3 ∷ []) ≡ 2 ∷ 3 ∷ []
unfolding body_of after_blank before_blank blank_line strip_prefix
second_part = refl

unprefixed : trim_0x (ascii "0x0xab") ≡ ascii "ab"
unfolding trim_0x ascii
unprefixed = refl

no_route :
    handle node formats partials length 1 none
      (λ text. text)
      []
      (ascii "GET / HTTP/1.1")
      0
      two_pending
    ≡ replied 0 two_pending not_found
unfolding handle starts_with strip_prefix ascii
no_route = refl

other_token : token 0 ≢ token 1
unfolding token decimal same
other_token e =
    let found : false ≡ true = subst (λ t. same (token 0) t ≡ true) e (same_refl (token 0)) in
    absurd (cc)

abbrev one_left : PendingMap ℕ
one_left = (token 1, 200) ∷ []

abbrev one_new : PendingMap ℕ
one_new = (token 1, 9) ∷ []

handle_finish-then_prepare_example :
    (new : ℕ) × (token 1 ≡ token 1)
    × (lookup (token 1) one_left ≡ some 200)
    × (lookup (token 1) one_new ≡ some new)
    × ((9 ∷ []) ≡ formats.hex_encode (partials.signer_payload new))
    × (length one_new ≡ length one_left)
unfolding lookup remove insert token decimal handle_finish handle_prepare submit_partial ascii
    le_bytes same trim_0x of_bytes
handle_finish-then_prepare_example =
    handle_finish-then_prepare node formats partials length 1 finish_first prepare_again 0 1 1
      two_pending one_left one_new 100 200 (submitted (le_bytes 32 5) []) (token 1) (9 ∷ []) refl
      refl refl other_token refl refl refl

abbrev one_sent : PendingMap ℕ
one_sent = (token 0, 9) ∷ []

abbrev both_sent : PendingMap ℕ
both_sent = (token 0, 9) ∷ (token 1, 9) ∷ []

-- Every body is the request above.
abbrev same_body : Formats Fields
same_body = record formats { from_str = λ text. some prepare_again }

abbrev prepare_line : List ℕ
prepare_line = ascii "POST /v1/prepare HTTP/1.1"

-- Two transactions are prepared, and between them there is a request without a route.
two_prepared :
    Unfinished node same_body partials length 1 none
      (λ text. text)
      0
      both_sent
      (token 1 ∷ token 0 ∷ [])
unfolding lookup insert token decimal handle handle_prepare ascii le_bytes same trim_0x of_bytes
    starts_with strip_prefix body_of after_blank before_blank blank_line
two_prepared =
    serves [] prepare_line 0 0 one_sent both_sent (token 0 ∷ []) (prepared (token 1) (9 ∷ []))
      (waits 1 0 one_sent (token 0 ∷ []) (
        serves [] (ascii "GET / HTTP/1.1") 1 1 one_sent one_sent (token 0 ∷ []) not_found
          (waits 0 1 one_sent (token 0 ∷ []) (
            serves [] prepare_line 0 0 [] one_sent [] (prepared (token 0) (9 ∷ [])) (starts 0) refl
              refl))
          refl refl))
      refl refl

Unfinished-Distinct_example :
    Distinct (token 1 ∷ token 0 ∷ [])
    × AllPending (token 1 ∷ token 0 ∷ []) both_sent
    × IsFresh both_sent
Unfinished-Distinct_example =
    Unfinished-Distinct node same_body partials length 1 none (λ text. text) 0 both_sent
      (token 1 ∷ token 0 ∷ []) two_prepared
