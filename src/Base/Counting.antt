-- ===== src/Base/Counting.antt =====
-- Counting what passes a test: under permutations, selections and parts of a list.
use mathlib.Core.Logic.{∥∥₁_elim}
use mathlib.Core.List.{Perm, Permᴰ}
use native.Mathlib.Nat.{ℕ_set}
use datasaver.Base.Lists.{length, count, select, All}
use Prim.Native.Nat.{◌+◌, ◌≤◌}
use mathlib.Core.Path.{◌≡◌, refl, ◌∙◌}
use mathlib.Core.Bool.{Bool, true, false, not, ◌||◌}
use mathlib.Core.List.{List, [], ◌∷◌}
use native.Mathlib.Omega.{arith}

module _ {A : Type 0} (p : A → Bool) where
  count-permᴰ : {xs ys : List A} → Permᴰ xs ys → count p xs ≡ count p ys
  count-permᴰ Permᴰ.nil = refl
  count-permᴰ (Permᴰ.cons e h) = rw e (omega (arith, count-permᴰ h))
  count-permᴰ (Permᴰ.swap e f) = rw (e, f) (omega arith)
  count-permᴰ (Permᴰ.trans h k) = count-permᴰ h ∙ count-permᴰ k

  pub count-perm : {xs ys : List A} → Perm xs ys → count p xs ≡ count p ys
  count-perm {xs} {ys} h = ∥∥₁_elim h (ℕ_set (count p xs) (count p ys)) count-permᴰ

  pub count-le-length : (xs : List A) → count p xs ≤ length xs
  count-le-length [] = omega arith
  count-le-length (x ∷ xs) = ground (arith, count-le-length xs)

  pub count-eq-zero→All : (xs : List A) → count p xs ≡ 0 → All (λ x. p x ≡ false) xs
  count-eq-zero→All [] h = tt
  count-eq-zero→All (x ∷ xs) h = (ground arith, count-eq-zero→All xs (ground arith))

  pub select-All : (xs : List A) → All (λ x. p x ≡ true) xs → select p xs ≡ xs
  select-All [] h = refl
  select-All (x ∷ xs) h = rw (h.0, select-All xs h.1)

  pub length-select : (xs : List A) → length (select p xs) ≡ count p xs
  length-select [] = refl
  length-select (x ∷ xs) = ground (arith, length-select xs)

module _ {A : Type 0} (q p : A → Bool) where
  pub count-select-le : (xs : List A) → count q (select p xs) ≤ count q xs
  count-select-le [] = omega arith
  count-select-le (x ∷ xs) = ground (arith, count-select-le xs)

  -- A test that implies the selection counts alike before and after it.
  pub count-select_of_imp :
      (xs : List A) → ((x : A) → q x ≡ true → p x ≡ true) → count q (select p xs) ≡ count q xs
  count-select_of_imp [] h = refl
  count-select_of_imp (x ∷ xs) h = ground (arith, h x, count-select_of_imp xs h)

module _ {A : Type 0} where
  all_pass : A → Bool
  all_pass x = true

  length-count : (xs : List A) → count all_pass xs ≡ length xs
  unfolding all_pass
  length-count [] = refl
  length-count (x ∷ xs) = omega (arith, length-count xs)

  pub length-perm : {xs ys : List A} → Perm xs ys → length xs ≡ length ys
  length-perm {xs} {ys} h = omega (arith, length-count xs, length-count ys, count-perm all_pass h)

module _ {A : Type 0} (p q : A → Bool) where
  pub count-or-le : (xs : List A) → count (λ x. p x || q x) xs ≤ count p xs + count q xs
  count-or-le [] = omega arith
  count-or-le (x ∷ xs) = ground (arith, count-or-le xs)

  pub count_mono : (xs : List A) → ((x : A) → p x ≡ true → q x ≡ true) → count p xs ≤ count q xs
  count_mono [] h = omega arith
  count_mono (x ∷ xs) h = ground (arith, h x, count_mono xs h)

module _ {A : Type 0} (p : A → Bool) where
  pub count-add-count-not : (xs : List A) → count p xs + count (λ x. not (p x)) xs ≡ length xs
  count-add-count-not [] = omega arith
  count-add-count-not (x ∷ xs) = ground (arith, count-add-count-not xs)
