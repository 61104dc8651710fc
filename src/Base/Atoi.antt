-- ===== src/Base/Atoi.antt =====
-- strconv.Atoi: an optional sign and decimal digits, in the range of a 64-bit int.
use datasaver.Base.{
  ℕ, ◌+◌, ◌-◌, ◌*◌, ◌^◌, ◌&&◌, Str, bytes, [], ◌∷◌, Option, none, some, if◌then◌else◌, ltb, leb,
  ◌==◌, ◌≡◌, refl, arith,
}
use datasaver.Base.Int.{ℤ, pos, negsuc, IsInt64, neg_ℕ}

-- The value of digits behind a value, and nothing if some byte is no digit.
unfoldable pub digits_from : ℕ → Str → Option ℕ
digits_from n [] = some n
digits_from n (c ∷ s) =
    let rest = digits_from (n * 10 + (c - b'0')) s in
    if leb b'0' c && leb c b'9' then rest else none

unfoldable pub unsigned : Str → Option ℕ
unfolding digits_from
unsigned [] = none
unsigned (c ∷ s) = digits_from 0 (c ∷ s)

unfoldable pub positive : Str → Option ℤ
unfolding unsigned
positive s = elim (unsigned s) [
  | none ↦ none
  | some n ↦ if ltb n (2 ^ 63) then some (pos n) else none
]

unfoldable pub negative : Str → Option ℤ
unfolding unsigned
negative s = elim (unsigned s) [
  | none ↦ none
  | some n ↦ if leb n (2 ^ 63) then some (neg_ℕ n) else none
]

unfoldable pub atoi : Str → Option ℤ
unfolding positive negative
atoi [] = none
atoi (c ∷ s) = if c == b'-' then negative s else if c == b'+' then positive s else positive (c ∷ s)

-- What is read lies in the range of an int.
pub atoi-IsInt64 : (s : Str) {z : ℤ} → atoi s ≡ some z → IsInt64 z
unfolding atoi
atoi-IsInt64 [] e = cc
atoi-IsInt64 (c ∷ s) e = ground arith

atoi_port : atoi (bytes "5432") ≡ some (pos 5432)
unfolding atoi
atoi_port = refl

atoi_minus : atoi (bytes "-1") ≡ some (negsuc 0)
unfolding atoi
atoi_minus = refl
