-- ===== src/Base/Map.antt =====
-- Storage maps: association lists over number keys, with the accessors that FRAME generates.
-- `StorageMap` with `OptionQuery` is read by `lookup`, with `ValueQuery` by `get_or`.
use Prim.Native.Nat.{ℕ, ◌+◌, ◌≤◌}
use mathlib.Core.Path.{◌≡◌, refl}
use mathlib.Core.Bool.{Bool, true, false}
use mathlib.Core.Option.{Option, none, some}
use mathlib.Core.List.{List, [], ◌∷◌}
use native.Mathlib.Omega.{arith}
use arthneura_core.Base.Tests.{◌==◌, if◌then◌else◌}

abbrev pub Map {ℓ} : Type ℓ → Type ℓ
Map V = List (ℕ × V)

module _ {ℓ} {V : Type ℓ} where
  unfoldable pub lookup : ℕ → Map V → Option V
  lookup k [] = none
  lookup k ((j, v) ∷ m) = if j == k then some v else lookup k m

  abbrev pub get_or : V → ℕ → Map V → V
  get_or d k m = elim (lookup k m) [ none ↦ d | some v ↦ v ]

  abbrev pub contains_key : ℕ → Map V → Bool
  contains_key k m = elim (lookup k m) [ none ↦ false | some _ ↦ true ]

  unfoldable pub insert : ℕ → V → Map V → Map V
  insert k v [] = (k, v) ∷ []
  insert k v ((j, w) ∷ m) = if j == k then (k, v) ∷ m else (j, w) ∷ insert k v m

  unfoldable pub remove : ℕ → Map V → Map V
  remove k [] = []
  remove k ((j, w) ∷ m) = let rest = remove k m in if j == k then rest else (j, w) ∷ rest

  pub lookup-insert :
      (j k : ℕ) (v : V) (m : Map V)
      → lookup j (insert k v m) ≡ (if k == j then some v else lookup j m)
  unfolding lookup insert
  lookup-insert j k v [] = refl
  lookup-insert j k v ((i, w) ∷ m) = ground (arith, lookup-insert j k v m)

  pub lookup-remove :
      (j k : ℕ) (m : Map V) → lookup j (remove k m) ≡ (if k == j then none else lookup j m)
  unfolding lookup remove
  lookup-remove j k [] = ground arith
  lookup-remove j k ((i, w) ∷ m) = ground (arith, lookup-remove j k m)

  -- No key stands twice.
  abbrev pub Unique : Map V → Type ℓ
  Unique [] = Unit
  Unique ((k, _) ∷ m) = (lookup k m ≡ none) × Unique m

  pub insert-Unique : (k : ℕ) (v : V) (m : Map V) → Unique m → Unique (insert k v m)
  unfolding insert lookup
  insert-Unique k v [] u = (refl, tt)
  insert-Unique k v ((j, w) ∷ m) u = ground (arith, insert-Unique k v m u.1, lookup-insert j k v m)

  pub remove-Unique : (k : ℕ) (m : Map V) → Unique m → Unique (remove k m)
  unfolding remove
  remove-Unique k [] u = tt
  remove-Unique k ((j, w) ∷ m) u = ground (arith, remove-Unique k m u.1, lookup-remove j k m)

  -- The sum of a weight over the values: what counters and liabilities are compared with.
  unfoldable pub total : (V → ℕ) → Map V → ℕ
  total f [] = 0
  total f ((_, v) ∷ m) = f v + total f m

  pub total-insert_new :
      (f : V → ℕ) (k : ℕ) (v : V) (m : Map V)
      → lookup k m ≡ none
      → total f (insert k v m) ≡ total f m + f v
  unfolding total insert lookup
  total-insert_new f k v [] h = omega arith
  total-insert_new f k v ((j, w) ∷ m) h = ground (arith, total-insert_new f k v m)

  pub total-insert :
      (f : V → ℕ) (k : ℕ) (v old : V) (m : Map V)
      → lookup k m ≡ some old
      → total f (insert k v m) + f old ≡ total f m + f v
  unfolding total insert lookup
  total-insert f k v old [] h = cc
  total-insert f k v old ((j, w) ∷ m) h = ground (arith, total-insert f k v old m)

  remove_absent : (k : ℕ) (m : Map V) → lookup k m ≡ none → remove k m ≡ m
  unfolding remove lookup
  remove_absent k [] h = refl
  remove_absent k ((j, w) ∷ m) h = ground (arith, remove_absent k m)

  pub total-remove :
      (f : V → ℕ) (k : ℕ) (old : V) (m : Map V)
      → Unique m
      → lookup k m ≡ some old
      → total f (remove k m) + f old ≡ total f m
  unfolding total remove lookup
  total-remove f k old [] u h = cc
  total-remove f k old ((j, w) ∷ m) u h =
      ground (arith, total-remove f k old m u.1, remove_absent k m)

  pub le-total : (f : V → ℕ) (k : ℕ) (v : V) (m : Map V) → lookup k m ≡ some v → f v ≤ total f m
  unfolding total lookup
  le-total f k v [] h = cc
  le-total f k v ((j, w) ∷ m) h = ground (arith, le-total f k v m)

-- `StorageDoubleMap` with `ValueQuery`.
abbrev pub DoubleMap {ℓ} : Type ℓ → Type ℓ
DoubleMap V = Map (Map V)

module _ {ℓ} {V : Type ℓ} where
  unfoldable pub get2 : V → ℕ → ℕ → DoubleMap V → V
  get2 d a b m = get_or d b (get_or [] a m)

  unfoldable pub insert2 : ℕ → ℕ → V → DoubleMap V → DoubleMap V
  insert2 a b v m = insert a (insert b v (get_or [] a m)) m

  pub get2-insert2 :
      (d : V) (a b a' b' : ℕ) (v : V) (m : DoubleMap V)
      → get2 d a b (insert2 a' b' v m)
        ≡ (if a' == a then if b' == b then v else get2 d a b m else get2 d a b m)
  unfolding get2 insert2 lookup
  get2-insert2 d a b a' b' v m = ground (
    arith,
    lookup-insert a a' (insert b' v (get_or [] a' m)) m,
    lookup-insert b b' v (get_or [] a' m),
  )
