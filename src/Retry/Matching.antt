-- ===== src/Retry/Matching.antt =====
-- contains of internal/backup/retry.go decides whether a text occurs in another up to ASCII case.
use datasaver.Base.{
  sym, ℕ, zero, suc, ◌+◌, ◌-◌, ◌≤◌, ◌<◌, ◌≡◌, refl, ap, Bool, true, false, ◌||◌, Str, [], ◌∷◌, ltb,
  leb, length, take, str_eq, str_eq_iff, has_prefix, arith, Bool-cases, inl, inr, to_lower,
}
use native.Mathlib.Numerals.{add-one}
use datasaver.Retry.{
  drop, slice, equal_fold_bytes, equal_fold_slice, contains_lower_from, contains_lower, contains,
}

-- The text occurs at the beginning of the other, or of one of its tails.
unfoldable pub occurs_in : Str → Str → Bool
unfolding has_prefix
occurs_in p [] = has_prefix [] p
occurs_in p (c ∷ s) = has_prefix (c ∷ s) p || occurs_in p s

equal_fold_bytes-take :
    (s p : Str)
    → length p ≤ length s
    → equal_fold_bytes (take (length p) s) p ≡ has_prefix (to_lower s) (to_lower p)
unfolding equal_fold_bytes has_prefix to_lower
equal_fold_bytes-take [] [] h = refl
equal_fold_bytes-take (c ∷ s) [] h = refl
equal_fold_bytes-take [] (x ∷ p) h = absurd (omega arith)
equal_fold_bytes-take (c ∷ s) (x ∷ p) h = ground (arith, equal_fold_bytes-take s p)

length-take_le : (n : ℕ) (s : Str) → n ≤ length s → length (take n s) ≡ n
length-take_le zero s h = refl
length-take_le (suc n) [] h = absurd (omega arith)
length-take_le (suc n) (c ∷ s) h = omega (arith, length-take_le n s)

equal_fold_slice-take :
    (s p : Str)
    → length p ≤ length s
    → equal_fold_slice (take (length p) s) p ≡ has_prefix (to_lower s) (to_lower p)
unfolding equal_fold_slice
equal_fold_slice-take s p h =
    ground (arith, length-take_le (length p) s h, equal_fold_bytes-take s p h)

has_prefix_short : (s p : Str) → length s < length p → has_prefix (to_lower s) (to_lower p) ≡ false
unfolding has_prefix to_lower
has_prefix_short s [] h = absurd (omega arith)
has_prefix_short [] (x ∷ p) h = refl
has_prefix_short (c ∷ s) (x ∷ p) h = ground (arith, has_prefix_short s p)

occurs_in_short : (s p : Str) → length s < length p → occurs_in (to_lower p) (to_lower s) ≡ false
unfolding occurs_in to_lower
occurs_in_short [] p h = has_prefix_short [] p h
occurs_in_short (c ∷ s) p h = ground (arith, has_prefix_short (c ∷ s) p h, occurs_in_short s p)

slice_lem : (s : Str) (i n : ℕ) → slice s i (i + n) ≡ take n (drop i s)
slice_lem s i n = ap (λ (k : ℕ). take k (drop i s)) (omega arith)

drop-suc : (i : ℕ) (s : Str) (c : ℕ) (u : Str) → drop i s ≡ c ∷ u → drop (suc i) s ≡ u
drop-suc zero [] c u h = cc
drop-suc zero (x ∷ s) c u h = cc
drop-suc (suc i) [] c u h = cc
drop-suc (suc i) (x ∷ s) c u h = drop-suc i s c u h

contains_lower_from-eq :
    (rounds i : ℕ) (s p u : Str)
    → drop i s ≡ u
    → rounds + length p ≡ length u + 1
    → contains_lower_from rounds i s p ≡ occurs_in (to_lower p) (to_lower u)
unfolding contains_lower_from
contains_lower_from-eq zero i s p u e h = sym (occurs_in_short u p (omega arith))
contains_lower_from-eq (suc rounds) i s [] [] e h =
    unfold equal_fold_slice occurs_in has_prefix to_lower in rw (slice_lem s i 0)
contains_lower_from-eq (suc rounds) i s (x ∷ p) [] e h = absurd (omega arith)
contains_lower_from-eq (suc rounds) i s p (c ∷ u) e h =
    let next : drop (i + 1) s ≡ u = rw add-one (drop-suc i s c u e) in
    let ih = contains_lower_from-eq rounds (i + 1) s p u next (omega arith) in
    rw (slice_lem s i (length p), e, equal_fold_slice-take (c ∷ u) p (omega arith), ih)
      (unfold occurs_in to_lower in ground arith)

has_prefix_self : (p : Str) → has_prefix p p ≡ true
unfolding has_prefix
has_prefix_self [] = refl
has_prefix_self (x ∷ p) = ground (arith, has_prefix_self p)

occurs_in_self : (p : Str) → occurs_in p p ≡ true
unfolding occurs_in
occurs_in_self [] = refl
occurs_in_self (x ∷ p) = ground (arith, has_prefix_self (x ∷ p))

not_both_empty : (s p : Str) → length s ≡ 0 → length p ≡ 0 → str_eq s p ≡ false → ⊥
unfolding str_eq
not_both_empty [] [] h k e = cc
not_both_empty [] (x ∷ p) h k e = omega arith
not_both_empty (c ∷ s) p h k e = omega arith

-- `contains` finds exactly the texts that occur up to ASCII case.
pub contains-occurs_in : (s p : Str) → contains s p ≡ occurs_in (to_lower p) (to_lower s)
unfolding contains contains_lower
contains-occurs_in s p = elim (Bool-cases (leb (length p) (length s))) [
  | inr long ↦ rw (long, occurs_in_short s p (ground arith))
  | inl fits ↦ elim (Bool-cases (str_eq s p)) [
    | inl same ↦ rw (fits, same, (str_eq_iff s p).0 same, occurs_in_self (to_lower p))
    | inr other ↦ elim (Bool-cases (ltb 0 (length s))) [
      | inl some_byte ↦
          rw (fits, other, some_byte)
            (contains_lower_from-eq (length s + 1 - length p) 0 s p s refl (ground arith))
      | inr empty ↦ absurd (not_both_empty s p (ground arith) (ground arith) other)
    ]
  ]
]
