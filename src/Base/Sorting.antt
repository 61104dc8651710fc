-- ===== src/Base/Sorting.antt =====
-- sort.Slice by a key, newest or largest first. Go does not say which order equal keys get, so the
-- program takes any sorter that meets these laws.
pub mod Insertion
use mathlib.Core.List.{List, [], ◌∷◌, Perm}
use datasaver.Base.{ℕ, suc, ◌≤◌, ◌≡◌, All, length, count, Bool}

module _ {A : Type 0} (key : A → ℕ) where
  abbrev pub Descending : List A → Type 0
  Descending [] = Unit
  Descending (x ∷ xs) = All (λ y. key y ≤ key x) xs × Descending xs

pub record Sorter {A : Type 0} (key : A → ℕ) : Type 0 where
  pub sort : List A → List A
  pub sort-perm : (xs : List A) → Perm (sort xs) xs
  pub sort-Descending : (xs : List A) → Descending key (sort xs)
