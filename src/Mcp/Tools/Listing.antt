-- ===== src/Mcp/Tools/Listing.antt =====
-- What the tool list_backups of internal/mcp/tools/backup.go shows.
use mathlib.Core.List.{Perm}
use datasaver.Base.{
  ℕ, zero, suc, ◌≤◌, List, [], ◌∷◌, ◌++◌, map, ltb, min, length, ok, ◌≡◌, refl, arith, All, sym, ap,
  ◌∙◌, take, length-take, subst, Bool-cases, inl, inr,
}
use datasaver.Base.Counting.{length-perm}
use datasaver.Base.Int.{ℤ}
use datasaver.Base.Sorting.{Sorter, Descending}
use datasaver.Metadata.{BackupMetadata}
use datasaver.Rotation.Gfs.{stamp}
use datasaver.Storage.{Backend}
use datasaver.Engine.{Codec, list_backups}
use datasaver.Engine.Run.{Engine}
use datasaver.Mcp.Tools.{item_of, effective_limit, apply_limit, list_backups_tool}

All-first :
    (P : BackupMetadata → Type 0) (xs ys : List BackupMetadata) → All P (xs ++ ys) → All P xs
All-first P [] ys h = tt
All-first P (x ∷ xs) ys h = (h.0, All-first P xs ys h.1)

All-second :
    (P : BackupMetadata → Type 0) (xs ys : List BackupMetadata) → All P (xs ++ ys) → All P ys
All-second P [] ys h = h
All-second P (x ∷ xs) ys h = All-second P xs ys h.1

-- A part of backups to show and the others: in order, and no other one is newer.
pub record IsCut (shown others ms : List BackupMetadata) : Type 0 where
  pub whole : shown ++ others ≡ ms
  pub in_order : Descending stamp shown
  pub newest : All (λ m. All (λ o. stamp o ≤ stamp m) others) shown

take-IsCut :
    (n : ℕ) (ms : List BackupMetadata)
    → Descending stamp ms
    → (others : List BackupMetadata) × IsCut (take n ms) others ms
take-IsCut zero ms h = (ms, record { whole = refl; in_order = tt; newest = tt })
take-IsCut (suc n) [] h = ([], record { whole = refl; in_order = tt; newest = tt })
take-IsCut (suc n) (m ∷ ms) h =
    let (others, cut) = take-IsCut n ms h.1 in
    let older = subst (All (λ o. stamp o ≤ stamp m)) (sym cut.whole) h.0 in
    (
      others,
      record {
        whole = ap (λ rest. m ∷ rest) cut.whole;
        in_order = (All-first (λ o. stamp o ≤ stamp m) (take n ms) others older, cut.in_order);
        newest = (All-second (λ o. stamp o ≤ stamp m) (take n ms) others older, cut.newest);
      },
    )

length-map : (ms : List BackupMetadata) → length (map item_of ms) ≡ length ms
length-map [] = refl
length-map (m ∷ ms) = ap suc (length-map ms)

take-whole : (n : ℕ) (ms : List BackupMetadata) → length ms ≤ n → take n ms ≡ ms
take-whole zero [] h = refl
take-whole zero (m ∷ ms) h = absurd (omega (arith, h))
take-whole (suc n) [] h = refl
take-whole (suc n) (m ∷ ms) h = ap (λ rest. m ∷ rest) (take-whole n ms (omega (arith, h)))

apply_limit-take : (n : ℕ) (ms : List BackupMetadata) → apply_limit n ms ≡ take n ms
unfolding apply_limit
apply_limit-take n ms = elim (Bool-cases (ltb n (length ms))) [
  | inl longer ↦ rw longer refl
  | inr fits ↦ rw fits (sym (take-whole n ms (ground (arith, fits))))
]

-- Where the listing succeeds, the tool list_backups shows as many of the listed backups as the
-- limit allows, the newest first, and no other listed backup is newer than a shown one. The count
-- is that of the shown ones.
pub list_backups_newest :
    (b : Backend) (k : Codec) (sorter : Sorter stamp) (limit : ℤ) (g : Engine b)
    (ms : List BackupMetadata)
    → list_backups b k g.storage ≡ ok ms
    → (shown : List BackupMetadata) × (others : List BackupMetadata) × (list_backups_tool b k sorter
          limit g
        ≡ ok (record {
          count = min (effective_limit limit) (length ms);
          backups = map item_of shown;
        }))
      × (length shown ≡ min (effective_limit limit) (length ms))
      × Perm (shown ++ others) ms
      × IsCut shown others (sorter.sort ms)
unfolding list_backups_tool
list_backups_newest b k sorter limit g ms listed =
    let n = effective_limit limit in
    let (others, cut) = take-IsCut n (sorter.sort ms) (sorter.sort-Descending ms) in
    let size = length-take n (sorter.sort ms) ∙ ap (min n) (length-perm (sorter.sort-perm ms)) in
    (
      take n (sorter.sort ms),
      others,
      rw
          (
            list_backups_tool,
            listed,
            apply_limit-take n (sorter.sort ms),
            length-map (take n (sorter.sort ms)),
            size,
          )
          refl,
      size,
      subst (λ xs. Perm xs ms) (sym cut.whole) (sorter.sort-perm ms),
      cut,
    )
