-- ===== src/Prelude/Sets.antt =====
-- `BTreeSet<u64>` as the ascending list of its elements.
use Prim.Native.Nat.{ℕ, suc, ◌≤◌, ◌<◌}
use mathlib.Core.Path.{◌≡◌, refl}
use mathlib.Core.Bool.{Bool, true, false, not, ◌&&◌, ◌||◌}
use mathlib.Core.List.{List, [], ◌∷◌}
use mathlib.Core.Logic.{inl, inr}
use native.Mathlib.Omega.{arith}
use voicetext_gateway.Prelude.Tests.{ltb, ◌==◌, if◌then◌else◌, Bool-cases}
use voicetext_gateway.Prelude.Lists.{length}

unfoldable pub contains : ℕ → List ℕ → Bool
contains a [] = false
contains a (x ∷ xs) = a == x || contains a xs

unfoldable pub insert : ℕ → List ℕ → List ℕ
insert a [] = a ∷ []
insert a (x ∷ xs) =
    let rest = insert a xs in if ltb a x then a ∷ x ∷ xs else (if a == x then x ∷ xs else x ∷ rest)

unfoldable pub remove : ℕ → List ℕ → List ℕ
remove a [] = []
remove a (x ∷ xs) = let rest = remove a xs in if a == x then rest else x ∷ rest

-- Strictly ascending, and above a lower bound.
abbrev pub Above : ℕ → List ℕ → Type 0
Above lo [] = Unit {0}
Above lo (x ∷ xs) = (lo < x) × Above x xs

pub contains-insert : (a b : ℕ) (s : List ℕ) → contains a (insert b s) ≡ (a == b || contains a s)
unfolding contains insert
contains-insert a b [] = refl
contains-insert a b (x ∷ xs) = ground (arith, contains-insert a b xs)

pub contains-remove :
    (a b : ℕ) (s : List ℕ) → contains a (remove b s) ≡ (not (a == b) && contains a s)
unfolding contains remove
contains-remove a b [] = ground arith
contains-remove a b (x ∷ xs) = ground (arith, contains-remove a b xs)

pub Above-weaken : (lo hi : ℕ) (s : List ℕ) → lo ≤ hi → Above hi s → Above lo s
Above-weaken lo hi [] h v = tt
Above-weaken lo hi (x ∷ xs) h v = (omega arith, v.1)

pub Above-insert : (lo a : ℕ) (s : List ℕ) → lo < a → Above lo s → Above lo (insert a s)
unfolding insert
Above-insert lo a [] h v = (h, tt)
Above-insert lo a (x ∷ xs) h v = ground (arith, Above-insert x a xs)

pub Above-remove : (lo a : ℕ) (s : List ℕ) → Above lo s → Above lo (remove a s)
unfolding remove
Above-remove lo a [] v = tt
Above-remove lo a (x ∷ xs) v = ground (arith, Above-remove x a xs, Above-weaken lo x (remove a xs))

-- Nothing at or under the bound is in the set.
pub Above-contains : (lo a : ℕ) (s : List ℕ) → Above lo s → contains a s ≡ true → lo < a
unfolding contains
Above-contains lo a [] v h = cc
Above-contains lo a (x ∷ xs) v h = ground (arith, Above-contains x a xs)

pub length-insert :
    (a : ℕ) (s : List ℕ) → contains a s ≡ false → length (insert a s) ≡ suc (length s)
unfolding contains insert
length-insert a [] h = refl
length-insert a (x ∷ xs) h = ground (arith, length-insert a xs)

pub remove_absent : (a : ℕ) (s : List ℕ) → contains a s ≡ false → remove a s ≡ s
unfolding contains remove
remove_absent a [] h = refl
remove_absent a (x ∷ xs) h = ground (arith, remove_absent a xs)

pub length-remove :
    (lo a : ℕ) (s : List ℕ)
    → Above lo s
    → contains a s ≡ true
    → suc (length (remove a s)) ≡ length s
unfolding contains remove
length-remove lo a [] v h = cc
length-remove lo a (x ∷ xs) v h = elim (Bool-cases (contains a xs)) [
  | inl e ↦ ground (arith, length-remove x a xs, Above-contains x a xs)
  | inr e ↦ ground (arith, remove_absent a xs)
]
