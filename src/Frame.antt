-- ===== src/Frame.antt =====
-- What the pallets use of FRAME: origins, dispatch results, and the rule that an extrinsic that
-- fails leaves the storage as it was (each call runs in a storage layer of its own).
use arthneura_core.Base.{ℕ, ◌≡◌, refl, ◌⊎◌, inl, inr, Bool, true, false, Option, none, some}
use arthneura_core.Errors.{RegistryError, EscrowError, VectorDbError}

pub data Origin : Type 0 where
  signed : ℕ → Origin
  root : Origin
  unsigned : Origin

-- `currency_error` stands for the errors of the `Currency` that the runtime plugs in.
pub data DispatchError : Type 0 where
  bad_origin : DispatchError
  currency_error : DispatchError
  registry : RegistryError → DispatchError
  escrow : EscrowError → DispatchError
  vector_db : VectorDbError → DispatchError

pub data Result {ℓ} (A : Type ℓ) : Type ℓ where
  ok : A → Result A
  err : DispatchError → Result A

infixl 5 ◌>>=◌ ◌>>◌
abbrev pub ◌>>=◌ {ℓ κ} : {A : Type ℓ} {B : Type κ} → Result A → (A → Result B) → Result B
ok a >>= next = next a
err reason >>= next = err reason

abbrev pub ◌>>◌ {ℓ} : {B : Type ℓ} → Result (Unit {0}) → Result B → Result B
first >> next = first >>= λ _. next

-- The macro `ensure!`.
abbrev pub ensure : Bool → DispatchError → Result (Unit {0})
ensure true reason = ok tt
ensure false reason = err reason

abbrev pub ok_or {ℓ} : {A : Type ℓ} → Option A → DispatchError → Result A
ok_or none e = err e
ok_or (some a) e = ok a

abbrev pub ensure_signed : Origin → Result ℕ
ensure_signed (signed who) = ok who
ensure_signed root = err bad_origin
ensure_signed unsigned = err bad_origin

-- The storage after an extrinsic: what it wrote is kept only if it returned `Ok`.
abbrev pub committed {ℓ} : {S : Type ℓ} → S → Result S → S
committed s (ok t) = t
committed s (err _) = s

pub Result-cases {ℓ} :
    {A : Type ℓ} (r : Result A) → ((e : DispatchError) × (r ≡ err e)) ⊎ ((a : A) × (r ≡ ok a))
Result-cases (ok a) = inr (a, refl)
Result-cases (err e) = inl (e, refl)

-- A property of the storage after a call: it held before, and every success establishes it.
pub committed_cases {ℓ κ} :
    {S : Type ℓ} (P : S → Type κ) (s : S) (r : Result S)
    → P s
    → ((t : S) → r ≡ ok t → P t)
    → P (committed s r)
committed_cases P s (ok t) old new = new t refl
committed_cases P s (err e) old new = old
