-- ===== src/Status/Summary.antt =====
-- The loop over the backups in cmd/datasaver/main.go and internal/mcp/tools/backup.go against what
-- it means.
use mathlib.Core.List.{Memᴰ}
use datasaver.Base.{
  ℕ, ◌≤◌, Bool, true, false, bytes, List, [], ◌∷◌, if◌then◌else◌, ltb, ◌≡◌, ◌↔◌, ◌⊎◌, refl, sym,
  subst, ◌∙◌, inl, inr, arith, All, All-mem, Bool-cases,
}
use datasaver.Base.Int.{ℤ, ltb_ℤ, ◌≤ℤ◌}
use datasaver.Clock.{Time, is_after, since}
use datasaver.Config.{Config, alert_duration}
use datasaver.Metadata.{BackupMetadata}
use datasaver.Status.{Totals, no_totals, add_backup, sum_up, backups_status, overdue_text}

abbrev pub nanos_of : BackupMetadata → ℕ
nanos_of b = b.timestamp.nanos

-- The last time is not before any time so far.
last-le : (t : Totals) (bs : List BackupMetadata) → t.last.nanos ≤ (sum_up t bs).last.nanos
unfolding sum_up is_after
last-le t [] = omega arith
last-le t (b ∷ bs) = ground (arith, last-le (add_backup t b) bs)

last-upper :
    (t : Totals) (bs : List BackupMetadata) → All (λ b. nanos_of b ≤ (sum_up t bs).last.nanos) bs
unfolding sum_up is_after
last-upper t [] = tt
last-upper t (b ∷ bs) =
    (ground (arith, last-le (add_backup t b) bs), last-upper (add_backup t b) bs)

last-attained :
    (t : Totals) (bs : List BackupMetadata)
    → ((sum_up t bs).last ≡ t.last)
      ⊎ ((b : BackupMetadata) × Memᴰ b bs × ((sum_up t bs).last ≡ b.timestamp))
unfolding sum_up is_after
last-attained t [] = inl refl
last-attained t (b ∷ bs) = elim (last-attained (add_backup t b) bs) [
  | inr (m, at, same) ↦ inr (m, Memᴰ.tail at, same)
  | inl same ↦ elim (Bool-cases (ltb t.last.nanos b.timestamp.nanos)) [
    | inl newer ↦ inr (b, Memᴰ.head refl, same ∙ ground (arith, newer))
    | inr older ↦ inl (same ∙ ground (arith, older))
  ]
]

-- A later time is not longer ago.
since-le : (now t u : Time) → t.nanos ≤ u.nanos → since now u ≤ℤ since now t
unfolding since
since-le now t u h = ground (arith, h)

overdue_text-healthy : ¬ (overdue_text ≡ bytes "healthy")
overdue_text-healthy e = ground (arith, e)

unchosen :
    (c : Bool)
    → c ≡ true
    → (if c then overdue_text else bytes "healthy") ≡ bytes "healthy"
    → overdue_text ≡ bytes "healthy"
unchosen true e h = h
unchosen false e h = absurd (ground (arith, e))

-- The two texts differ in their first letters.
overdue-healthy :
    (x y : ℤ) → ((if ltb_ℤ x y then overdue_text else bytes "healthy") ≡ bytes "healthy") ↔ (y ≤ℤ x)
overdue-healthy x y = elim (Bool-cases (ltb_ℤ x y)) [
  | inl over ↦ (
    λ e. absurd (overdue_text-healthy (unchosen (ltb_ℤ x y) over e)),
    λ h. absurd (ground (arith, over, h)),
  )
  | inr fine ↦ (λ e. ground (arith, fine), λ h. rw fine refl)
]

status_of_last :
    (cfg : Config) (now : Time) (b : BackupMetadata) (bs : List BackupMetadata)
    → (backups_status cfg now (b ∷ bs) ≡ bytes "healthy")
      ↔ (since now (sum_up no_totals (b ∷ bs)).last ≤ℤ alert_duration cfg)
unfolding backups_status
status_of_last cfg now b bs =
    overdue-healthy (alert_duration cfg) (since now (sum_up no_totals (b ∷ bs)).last)

-- The status is healthy exactly if some backup is not longer ago than the alert duration.
pub backups_status_iff :
    (cfg : Config) (now : Time) (bs : List BackupMetadata)
    → (backups_status cfg now bs ≡ bytes "healthy")
      ↔ ((b : BackupMetadata) × Memᴰ b bs × (since now b.timestamp ≤ℤ alert_duration cfg))
backups_status_iff cfg now [] =
    (λ e. absurd (unfold backups_status in ground (arith, e)), λ (b, at, _). elim at [ ])
backups_status_iff cfg now (b ∷ bs) =
    let last = (sum_up no_totals (b ∷ bs)).last in
    let upper = last-upper no_totals (b ∷ bs) in
    (
      λ healthy.
          let recent = (status_of_last cfg now b bs).0 healthy in
          elim (last-attained no_totals (b ∷ bs)) [
            | inr (m, at, same) ↦
                (m, at, subst (λ t. since now t ≤ℤ alert_duration cfg) same recent)
            | inl zero_last ↦
                let shorter =
                  since-le now last b.timestamp
                    (subst (λ t. t.nanos ≤ nanos_of b) (sym zero_last) (omega arith)) in
                (b, Memᴰ.head refl, omega (arith, shorter, recent))
          ],
      λ (m, at, recent).
          let below = All-mem (λ b. nanos_of b ≤ last.nanos) m (b ∷ bs) upper at in
          let shorter = since-le now m.timestamp last below in
          (status_of_last cfg now b bs).1 (omega (arith, shorter, recent)),
    )
