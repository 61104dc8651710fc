-- ===== src/Base/Sorting/Insertion.antt =====
-- A sorter that the program may be run with: insertion, which is also what sort.Slice does to a
-- short slice.
use mathlib.Core.List.Perm
use mathlib.Core.List.{List, [], ◌∷◌, Perm}
use datasaver.Base.{ℕ, ◌≤◌, All, All-map, ltb, if◌then◌else◌, Bool-cases, inl, inr, arith}
use datasaver.Base.Sorting.{Descending, Sorter}

module _ {A : Type 0} (key : A → ℕ) where
  unfoldable pub insert : A → List A → List A
  insert x [] = x ∷ []
  insert x (y ∷ ys) =
      let later = insert x ys in if ltb (key y) (key x) then x ∷ y ∷ ys else y ∷ later

  unfoldable pub insertion_sort : List A → List A
  unfolding insert
  insertion_sort [] = []
  insertion_sort (x ∷ xs) = insert x (insertion_sort xs)

  insert-perm : (x : A) (xs : List A) → Perm (insert x xs) (x ∷ xs)
  unfolding insert
  insert-perm x [] = Perm.refl (x ∷ [])
  insert-perm x (y ∷ ys) = elim (Bool-cases (ltb (key y) (key x))) [
    | inl less ↦ rw less (Perm.refl _)
    | inr more ↦ rw more (Perm.trans (Perm.cons y (insert-perm x ys)) (Perm.swap x y ys))
  ]

  pub insertion_sort-perm : (xs : List A) → Perm (insertion_sort xs) xs
  unfolding insertion_sort
  insertion_sort-perm [] = Perm.refl []
  insertion_sort-perm (x ∷ xs) =
      Perm.trans (insert-perm x (insertion_sort xs)) (Perm.cons x (insertion_sort-perm xs))

  insert-All : (P : A → Type 0) (x : A) (xs : List A) → P x → All P xs → All P (insert x xs)
  unfolding insert
  insert-All P x [] h hs = (h, tt)
  insert-All P x (y ∷ ys) h hs = elim (Bool-cases (ltb (key y) (key x))) [
    | inl less ↦ rw less (h, hs)
    | inr more ↦ rw more (hs.0, insert-All P x ys h hs.1)
  ]

  insert-Descending : (x : A) (xs : List A) → Descending key xs → Descending key (insert x xs)
  unfolding insert
  insert-Descending x [] d = (tt, tt)
  insert-Descending x (y ∷ ys) d = elim (Bool-cases (ltb (key y) (key x))) [
    | inl less ↦
        rw less ((ground arith, All-map _ (λ z. key z ≤ key x) (λ z h. ground arith) ys d.0), d)
    | inr more ↦
        rw more
          (insert-All (λ z. key z ≤ key y) x ys (ground arith) d.0, insert-Descending x ys d.1)
  ]

  pub insertion_sort-Descending : (xs : List A) → Descending key (insertion_sort xs)
  unfolding insertion_sort
  insertion_sort-Descending [] = tt
  insertion_sort-Descending (x ∷ xs) =
      insert-Descending x (insertion_sort xs) (insertion_sort-Descending xs)

  abbrev pub insertion : Sorter key
  insertion = record {
    sort = insertion_sort;
    sort-perm = insertion_sort-perm;
    sort-Descending = insertion_sort-Descending;
  }
