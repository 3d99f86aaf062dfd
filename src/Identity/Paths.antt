-- ===== src/Identity/Paths.antt =====
-- The paths of the key files (offchain-agent-registry/src/keystore.rs).
use arthneura_core.Base.{
  ℕ, ◌≡◌, ◌≢◌, refl, sym, ap, ◌∙◌, ◌<◌, true, false, List, [], ◌∷◌, ◌++◌, arith, ◌==◌, inl, inr,
  Bool-cases, if◌then◌else◌, length, length-append,
}
use arthneura_core.Base.Bytes.{ascii, append_cancel}
use arthneura_core.Identity.{
  same, all_label_chars, validate_label, needs_no_separator, join, key_file_path, ok,
}

pub same-eq : (cs ds : List ℕ) → same cs ds ≡ true → cs ≡ ds
unfolding same
same-eq [] [] e = refl
same-eq [] (d ∷ ds) e = absurd (cc)
same-eq (c ∷ cs) [] e = absurd (cc)
same-eq (c ∷ cs) (d ∷ ds) e =
    let first : c ≡ d = ground arith in let rest = same-eq cs ds (ground arith) in cc

pub same_refl : (cs : List ℕ) → same cs cs ≡ true
unfolding same
same_refl [] = refl
same_refl (c ∷ cs) = ground (arith, same_refl cs)

-- The directory with a separator after it.
abbrev pub folder : List ℕ → List ℕ
folder dir = if needs_no_separator dir then dir else dir ++ 47 ∷ []

suffix_cancel : (xs ys zs : List ℕ) → (xs ++ zs) ≡ (ys ++ zs) → xs ≡ ys
suffix_cancel [] [] zs e = refl
suffix_cancel [] (y ∷ ys) zs e = absurd (omega (arith, ap length e, length-append ys zs))
suffix_cancel (x ∷ xs) [] zs e = absurd (omega (arith, ap length e, length-append xs zs))
suffix_cancel (x ∷ xs) (y ∷ ys) zs e =
    let rest = suffix_cancel xs ys zs (cc) in let first : x ≡ y = cc in cc

append_assoc : (xs ys zs : List ℕ) → ((xs ++ ys) ++ zs) ≡ (xs ++ (ys ++ zs))
append_assoc [] ys zs = refl
append_assoc (x ∷ xs) ys zs = ap (λ t. x ∷ t) (append_assoc xs ys zs)

-- No character of a text is a separator.
abbrev pub NoSeparator : List ℕ → Type 0
NoSeparator [] = Unit
NoSeparator (c ∷ cs) = (c ≢ 47) × NoSeparator cs

label-NoSeparator :
    (label : List ℕ) → all_label_chars label ≡ true → NoSeparator (label ++ ascii ".json")
unfolding all_label_chars ascii
label-NoSeparator [] e =
    (omega arith, (omega arith, (omega arith, (omega arith, (omega arith, tt)))))
label-NoSeparator (c ∷ cs) e = (ground arith, label-NoSeparator cs (ground arith))

join-folder :
    (dir : List ℕ) (c : ℕ) (cs : List ℕ)
    → (c == 47) ≡ false
    → join dir (c ∷ cs) ≡ (folder dir ++ c ∷ cs)
unfolding join
join-folder dir c cs plain = elim (Bool-cases (needs_no_separator dir)) [
  | inl ended ↦ rw (plain, ended) refl
  | inr bare ↦ rw (plain, bare) (sym (append_assoc dir (47 ∷ []) (c ∷ cs)))
]

-- A key file lies directly in the directory: its path is the directory, a separator, and a file name in which
-- there is none, the label with `.json`.
pub key_file_path-inside :
    (dir label path : List ℕ)
    → key_file_path dir label ≡ ok path
    → (path ≡ (folder dir ++ (label ++ ascii ".json")))
      × NoSeparator (label ++ ascii ".json")
      × (0 < length label)
unfolding key_file_path validate_label
key_file_path-inside dir [] path e = absurd (ground arith)
key_file_path-inside dir (c ∷ cs) path e = elim (Bool-cases (all_label_chars (c ∷ cs))) [
  | inl valid ↦
      let clean = label-NoSeparator (c ∷ cs) valid in
      let start : (c == 47) ≡ false = ground (arith, clean.0) in
      let joined : join dir ((c ∷ cs) ++ ascii ".json") ≡ path = ground arith in
      (sym joined ∙ join-folder dir c (cs ++ ascii ".json") start, clean, omega arith)
  | inr invalid ↦ absurd (ground arith)
]

-- Two labels never share a key file.
pub key_file_path-injective :
    (dir label label' path : List ℕ)
    → key_file_path dir label ≡ ok path
    → key_file_path dir label' ≡ ok path
    → label ≡ label'
key_file_path-injective dir label label' path e e' =
    let (at, _, _) = key_file_path-inside dir label path e in
    let (at', _, _) = key_file_path-inside dir label' path e' in
    suffix_cancel label label' (ascii ".json")
      (append_cancel (folder dir) (label ++ ascii ".json") (label' ++ ascii ".json") (sym at ∙ at'))
