-- ===== src/Base/Decimal.antt =====
-- The verb %d of package fmt, and that Atoi reads back what it prints.
use datasaver.Base.{
  ℕ, zero, suc, ◌+◌, ◌-◌, ◌*◌, ◌/◌, ◌%◌, ◌^◌, ◌≤◌, ◌<◌, Str, [], ◌∷◌, ◌++◌, some, if◌then◌else◌,
  ltb, ◌≡◌, refl, ap, subst, ◌∙◌, arith, Bool-cases, inl, inr,
}
use datasaver.Base.Int.{ℤ, pos, negsuc, IsInt64}
use datasaver.Base.Atoi.{digits_from, unsigned, positive, negative, atoi}

-- The digits of a number, on as much fuel as the number has digits, which is at most the number
-- and one more.
unfoldable pub digits_of : ℕ → ℕ → Str
digits_of zero n = []
digits_of (suc fuel) n =
    let front = digits_of fuel (n / 10) in
    let last = (b'0' + n % 10) ∷ [] in if ltb n 10 then last else front ++ last

unfoldable pub decimal_ℕ : ℕ → Str
unfolding digits_of
decimal_ℕ n = digits_of (suc n) n

unfoldable pub decimal : ℤ → Str
unfolding decimal_ℕ
decimal (pos n) = decimal_ℕ n
decimal (negsuc n) = b'-' ∷ decimal_ℕ (suc n)

-- A digit that follows a text.
digits_from-append :
    (m : ℕ) (s : Str) (v d : ℕ)
    → digits_from m s ≡ some v
    → d < 10
    → digits_from m (s ++ (b'0' + d) ∷ []) ≡ some (v * 10 + d)
unfolding digits_from
digits_from-append m [] v d h k = ground (arith, h)
digits_from-append m (c ∷ s) v d h k =
    ground (arith, h, digits_from-append (m * 10 + (c - b'0')) s v d)

digits_from-digits_of : (fuel n : ℕ) → n < fuel → digits_from 0 (digits_of fuel n) ≡ some n
unfolding digits_of digits_from
digits_from-digits_of zero n h = absurd (omega arith)
digits_from-digits_of (suc fuel) n h = elim (Bool-cases (ltb n 10)) [
  | inl one ↦ rw one (ground arith)
  | inr more ↦
      let big : 10 ≤ n = ground (arith, more) in
      rw more (
        digits_from-append 0 (digits_of fuel (n / 10)) (n / 10) (n % 10)
          (digits_from-digits_of fuel (n / 10) (omega arith)) (omega arith)
        ∙ ap some (omega arith))
]

-- A number is printed as one digit at least, and begins with a digit.
digits_of-cons :
    (fuel n : ℕ) → n < fuel → (c : ℕ) × (s : Str) × (digits_of fuel n ≡ c ∷ s) × (b'0' ≤ c)
unfolding digits_of
digits_of-cons zero n h = absurd (omega arith)
digits_of-cons (suc fuel) n h = elim (Bool-cases (ltb n 10)) [
  | inl one ↦ (b'0' + n % 10, [], rw one, omega arith)
  | inr more ↦
      let big : 10 ≤ n = ground (arith, more) in
      let (c, s, front, digit) = digits_of-cons fuel (n / 10) (omega arith) in
      (c, s ++ (b'0' + n % 10) ∷ [], rw (more, front), digit)
]

decimal_ℕ-cons : (n : ℕ) → (c : ℕ) × (s : Str) × (decimal_ℕ n ≡ c ∷ s) × (b'0' ≤ c)
unfolding decimal_ℕ
decimal_ℕ-cons n = digits_of-cons (suc n) n (omega arith)

unsigned_cons : (c : ℕ) (s : Str) → unsigned (c ∷ s) ≡ digits_from 0 (c ∷ s)
unfolding unsigned
unsigned_cons c s = refl

unsigned-decimal_ℕ : (n : ℕ) → unsigned (decimal_ℕ n) ≡ some n
unsigned-decimal_ℕ n =
    let (c, s, front, _) = decimal_ℕ-cons n in
    let read : digits_from 0 (decimal_ℕ n) ≡ some n =
      unfold decimal_ℕ in digits_from-digits_of (suc n) n (omega arith) in
    ap unsigned front ∙ unsigned_cons c s ∙ subst (λ u. digits_from 0 u ≡ some n) front read

atoi-of_digit :
    (n c : ℕ) (s : Str)
    → unsigned (c ∷ s) ≡ some n
    → b'0' ≤ c
    → n < 2 ^ 63
    → atoi (c ∷ s) ≡ some (pos n)
unfolding atoi positive
atoi-of_digit n c s read digit h = ground (arith, read, digit, h)

-- Atoi reads back what %d prints, in the range of an int.
pub atoi-decimal : (z : ℤ) → IsInt64 z → atoi (decimal z) ≡ some z
unfolding decimal
atoi-decimal (pos n) h =
    let (c, s, front, digit) = decimal_ℕ-cons n in
    ap atoi front
    ∙ atoi-of_digit n c s (subst (λ u. unsigned u ≡ some n) front (unsigned-decimal_ℕ n)) digit h.0
atoi-decimal (negsuc n) h = unfold atoi negative in ground (arith, unsigned-decimal_ℕ (suc n), h)
