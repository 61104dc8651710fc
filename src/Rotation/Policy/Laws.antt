-- ===== src/Rotation/Policy/Laws.antt =====
-- Laws of the classes and of the retention dates of internal/rotation/policy.go.
use datasaver.Base.{
  subst, ◌⊎◌, ℕ, ◌+◌, ◌*◌, ◌≤◌, ◌<◌, ◌≡◌, refl, true, List, [], ◌∷◌, ◌++◌, arith, Bool-cases, inl,
  inr,
}
use datasaver.Base.Int.{pos, ltb_ℤ, ◌≤ℤ◌}
use datasaver.Clock.{Time, add_days}
use datasaver.Rotation.Policy.{
  Policy, BackupType, daily, weekly, is_sunday, is_first_of_month, classify_backup, primary_type,
  class_days, retention_days, calculate_retention_date,
}

-- The primary type of a backup is the last, and so the rarest, of its types.
pub classify-primary_type :
    (t : Time) → (front : List BackupType) × (classify_backup t ≡ front ++ primary_type t ∷ [])
unfolding classify_backup primary_type
classify-primary_type t = elim (Bool-cases (is_first_of_month t)) [
  | inl first ↦ elim (Bool-cases (is_sunday t)) [
    | inl sun ↦ rw (first, sun) (daily ∷ weekly ∷ [], refl)
    | inr weekday ↦ rw (first, weekday) (daily ∷ [], refl)
  ]
  | inr other ↦ elim (Bool-cases (is_sunday t)) [
    | inl sun ↦ rw (other, sun) (daily ∷ [], refl)
    | inr weekday ↦ rw (other, weekday) ([], refl)
  ]
]

-- With a positive maximum age the retention of a class is the smaller of the class's own days and
-- the maximum age.
pub retention_days-eq-min :
    (p : Policy) (c : BackupType)
    → ltb_ℤ (pos 0) p.max_age_days ≡ true
    → (retention_days p c ≤ℤ p.max_age_days)
      × (retention_days p c ≤ℤ class_days p c)
      × ((retention_days p c ≡ p.max_age_days) ⊎ (retention_days p c ≡ class_days p c))
unfolding retention_days
retention_days-eq-min p c h = elim (Bool-cases (ltb_ℤ p.max_age_days (class_days p c))) [
  | inl over ↦ rw (h, over) (omega arith, ground arith, inl refl)
  | inr under ↦ rw (h, under) (ground arith, omega arith, inr refl)
]

-- With a maximum age of `d` days, `d` positive, no retention date is more than `d` days past the
-- time of the backup.
pub retention_date-le :
    (p : Policy) (t : Time) (c : BackupType) (d : ℕ)
    → p.max_age_days ≡ pos d
    → 0 < d
    → (calculate_retention_date p t c).nanos ≤ t.nanos + d * 86400000000000
unfolding calculate_retention_date add_days
retention_date-le p t c d e h = omega (
  arith,
  subst (λ m. retention_days p c ≤ℤ m) e (retention_days-eq-min p c (rw e (ground arith))).0,
)
