-- ===== src/Door/Requests.antt =====
-- The tests on the text of a request in offchain-agent-registry/src/bin/register-door.rs.
use arthneura_core.Base.{
  ℕ, Bool, true, false, ◌&&◌, Option, none, some, List, [], ◌∷◌, ◌==◌, if◌then◌else◌,
}
use arthneura_core.Base.Bytes.{ascii}

-- `strip_prefix`
unfoldable pub strip_prefix : List ℕ → List ℕ → Option (List ℕ)
strip_prefix [] text = some text
strip_prefix (p ∷ ps) [] = none
strip_prefix (p ∷ ps) (c ∷ cs) = let rest = strip_prefix ps cs in if p == c then rest else none

unfoldable pub starts_with : List ℕ → List ℕ → Bool
unfolding strip_prefix
starts_with prefix text = elim (strip_prefix prefix text) [ none ↦ false | some rest ↦ true ]

-- `split` at a character: the first piece and the others.
unfoldable pub split : ℕ → List ℕ → List ℕ × List (List ℕ)
split c [] = ([], [])
split c (x ∷ xs) =
    let rest = split c xs in if x == c then ([], rest.0 ∷ rest.1) else (x ∷ rest.0, rest.1)

-- What follows `\r\n\r\n`, where a text starts with it.
unfoldable pub blank_line : List ℕ → Option (List ℕ)
unfolding strip_prefix
blank_line text = strip_prefix (13 ∷ 10 ∷ 13 ∷ 10 ∷ []) text

-- What follows the first blank line, if there is one.
unfoldable pub after_blank : List ℕ → Option (List ℕ)
unfolding blank_line
after_blank [] = none
after_blank (c ∷ cs) =
    let later = after_blank cs in
    elim (blank_line (c ∷ cs)) [ none ↦ later | some rest ↦ some rest ]

-- What precedes the first blank line, all where there is none.
unfoldable pub before_blank : List ℕ → List ℕ
unfolding blank_line
before_blank [] = []
before_blank (c ∷ cs) =
    let later = before_blank cs in elim (blank_line (c ∷ cs)) [ none ↦ c ∷ later | some rest ↦ [] ]

-- `req.split("\r\n\r\n").nth(1).unwrap_or("")`
unfoldable pub body_of : List ℕ → List ℕ
unfolding after_blank before_blank
body_of req = elim (after_blank req) [ none ↦ [] | some rest ↦ before_blank rest ]

-- `split(c).nth(1).unwrap_or("")`
abbrev pub second : List ℕ × List (List ℕ) → List ℕ
second (first, []) = []
second (first, x ∷ xs) = x

-- `find_map(|p| p.strip_prefix("account="))`
unfoldable pub find_account : List (List ℕ) → List ℕ
unfolding strip_prefix ascii
find_account [] = []
find_account (p ∷ ps) =
    let later = find_account ps in
    elim (strip_prefix (ascii "account=") p) [ none ↦ later | some account ↦ account ]

-- The parameter `account` of the request line.
unfoldable pub account_parameter : List ℕ → List ℕ
unfolding split find_account
account_parameter line =
    let query = (split 32 (second (split 63 line))).0 in
    let pieces = split 38 query in find_account (pieces.0 ∷ pieces.1)

-- `trim_start_matches("0x")`
unfoldable pub trim_0x : List ℕ → List ℕ
trim_0x [] = []
trim_0x (c ∷ []) = c ∷ []
trim_0x (c ∷ d ∷ cs) = let rest = trim_0x cs in if (c == 48) && (d == 120) then rest else c ∷ d ∷ cs
