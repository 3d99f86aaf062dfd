-- ===== src/AgentRegistry/Index.antt =====
-- The list operations behind `ControllerAgents` in pallets/pallet-agent-registry/src/lib.rs.
use arthneura_core.Base.{
  ℕ, ◌+◌, ◌≤◌, ◌≡◌, false, ◌||◌, List, [], ◌∷◌, ◌++◌, arith, ◌==◌, if◌then◌else◌, length,
}
use arthneura_core.AgentRegistry.{contains, retain_ne}

pub contains-append_one :
    (x y : ℕ) (xs : List ℕ) → contains x (xs ++ y ∷ []) ≡ (contains x xs || (y == x))
unfolding contains
contains-append_one x y [] = ground arith
contains-append_one x y (z ∷ xs) = ground (arith, contains-append_one x y xs)

pub contains-retain_ne :
    (x y : ℕ) (xs : List ℕ)
    → contains x (retain_ne y xs) ≡ (if y == x then false else contains x xs)
unfolding contains retain_ne
contains-retain_ne x y [] = ground arith
contains-retain_ne x y (z ∷ xs) = ground (arith, contains-retain_ne x y xs)

pub length-retain_ne-le : (y : ℕ) (xs : List ℕ) → length (retain_ne y xs) ≤ length xs
unfolding retain_ne
length-retain_ne-le y [] = omega arith
length-retain_ne-le y (z ∷ xs) = ground (arith, length-retain_ne-le y xs)

pub length-append_one : (y : ℕ) (xs : List ℕ) → length (xs ++ y ∷ []) ≡ length xs + 1
length-append_one y [] = omega arith
length-append_one y (z ∷ xs) = omega (arith, length-append_one y xs)
