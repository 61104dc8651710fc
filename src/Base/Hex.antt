-- ===== src/Base/Hex.antt =====
-- hex.EncodeToString of encoding/hex, on bytes.
use datasaver.Base.{
  ℕ, ◌+◌, Str, ◌-◌, ◌*◌, ◌/◌, ◌%◌, ltb, if◌then◌else◌, [], ◌∷◌, ◌≡◌, ◌<◌, All, arith, refl,
}

abbrev pub hex_digit : ℕ → ℕ
hex_digit n = if ltb n 10 then b'0' + n else b'a' + (n - 10)

unfoldable pub hex_encode : Str → Str
hex_encode [] = []
hex_encode (b ∷ bs) = hex_digit (b / 16) ∷ hex_digit (b % 16) ∷ hex_encode bs

abbrev pub AllBytes : Str → Type 0
AllBytes = All (λ b. b < 256)

hex_digit_injective : (m n : ℕ) → m < 16 → n < 16 → hex_digit m ≡ hex_digit n → m ≡ n
hex_digit_injective m n hm hn e = ground arith

byte_of_digits : (b : ℕ) → b ≡ b / 16 * 16 + b % 16
byte_of_digits b = omega arith

heads : {x y : ℕ} {xs ys : Str} → ◌≡◌ {A = Str} (x ∷ xs) (y ∷ ys) → x ≡ y
heads e = cc e

tails : {x y : ℕ} {xs ys : Str} → ◌≡◌ {A = Str} (x ∷ xs) (y ∷ ys) → xs ≡ ys
tails e = cc e

-- Bytes are told apart by their digits.
pub hex_encode_injective :
    (xs ys : Str) → AllBytes xs → AllBytes ys → hex_encode xs ≡ hex_encode ys → xs ≡ ys
unfolding hex_encode
hex_encode_injective [] [] hx hy e = refl
hex_encode_injective [] (y ∷ ys) hx hy e = absurd (ground (arith, e))
hex_encode_injective (x ∷ xs) [] hx hy e = absurd (ground (arith, e))
hex_encode_injective (x ∷ xs) (y ∷ ys) hx hy e =
    let high : x / 16 ≡ y / 16 =
      hex_digit_injective (x / 16) (y / 16) (ground (arith, hx.0)) (ground (arith, hy.0))
        (heads e) in
    let low : x % 16 ≡ y % 16 =
      hex_digit_injective (x % 16) (y % 16) (omega arith) (omega arith) (heads (tails e)) in
    let rest = hex_encode_injective xs ys hx.1 hy.1 (tails (tails e)) in
    let first : x ≡ y = omega (arith, high, low) in cc (first, rest)
