-- ===== src/Base/Percent.antt =====
-- url.QueryEscape, and the two readings of what it writes: as a query, and as the rest of a URL.
use datasaver.Base.{
  ℕ, ◌+◌, ◌-◌, ◌*◌, ◌/◌, ◌%◌, ◌<◌, Bool, true, false, not, ◌&&◌, ◌||◌, Str, [], ◌∷◌, ◌++◌, map,
  Option, none, some, if◌then◌else◌, ltb, leb, ◌==◌, ◌≡◌, refl, ap, ◌∙◌, arith, All, All-append,
  Bool-cases, inl, inr,
}

-- Letters, digits and -_.~ stand for themselves.
abbrev pub is_unreserved : ℕ → Bool
is_unreserved c =
    leb b'a' c && leb c b'z'
    || leb b'A' c && leb c b'Z'
    || leb b'0' c && leb c b'9'
    || c == b'-'
    || c == b'_'
    || c == b'.'
    || c == b'~'

-- The hexadecimal digits are capitals.
abbrev hex_digit : ℕ → ℕ
hex_digit n = if ltb n 10 then b'0' + n else b'A' + (n - 10)

unfoldable pub escape_byte : ℕ → Str
escape_byte c =
    if is_unreserved c
    then c ∷ []
    else if c == b' '
    then b'+' ∷ []
    else b'%' ∷ hex_digit (c / 16) ∷ hex_digit (c % 16) ∷ []

unfoldable pub query_escape : Str → Str
unfolding escape_byte
query_escape [] = []
query_escape (c ∷ s) = escape_byte c ++ query_escape s

abbrev hex_value : ℕ → Option ℕ
hex_value c =
    if leb b'0' c && leb c b'9'
    then some (c - b'0')
    else if leb b'A' c && leb c b'F'
    then some (c - b'A' + 10)
    else if leb b'a' c && leb c b'f'
    then some (c - b'a' + 10)
    else none

-- Percent-decoding. A plus sign is a space in a query only. A percent sign without two digits is an
-- error.
unfoldable pub percent_decode : Bool → Str → Option Str
percent_decode query [] = some []
percent_decode query (c ∷ []) =
    if c == b'%' then none else some ((if query && c == b'+' then b' ' else c) ∷ [])
percent_decode query (c ∷ x ∷ []) =
    let rest = percent_decode query (x ∷ []) in
    if c == b'%'
    then none
    else elim rest [ none ↦ none | some t ↦ some ((if query && c == b'+' then b' ' else c) ∷ t) ]
percent_decode query (c ∷ x ∷ y ∷ s) =
    let rest = percent_decode query (x ∷ y ∷ s) in
    let far = percent_decode query s in
    if c == b'%'
    then elim (hex_value x) [
      | none ↦ none
      | some h ↦ elim (hex_value y) [
        | none ↦ none
        | some l ↦ elim far [ none ↦ none | some t ↦ some ((h * 16 + l) ∷ t) ]
      ]
    ]
    else elim rest [ none ↦ none | some t ↦ some ((if query && c == b'+' then b' ' else c) ∷ t) ]

abbrev pub IsBytes : Str → Type 0
IsBytes = All (λ c. c < 256)

-- One plain byte in front.
decode_plain :
    (query : Bool) (c : ℕ) (s t : Str)
    → (c == b'%') ≡ false
    → percent_decode query s ≡ some t
    → percent_decode query (c ∷ s) ≡ some ((if query && c == b'+' then b' ' else c) ∷ t)
unfolding percent_decode
decode_plain query c [] t h e = ground (arith, h, e)
decode_plain query c (x ∷ []) t h e = ground (arith, h, e)
decode_plain query c (x ∷ y ∷ s) t h e = ground (arith, h, e)

hex_value-hex_digit : (n : ℕ) → n < 16 → hex_value (hex_digit n) ≡ some n
hex_value-hex_digit n h = ground arith

decode_hex :
    (query : Bool) (c : ℕ) (s t : Str)
    → c < 256
    → percent_decode query s ≡ some t
    → percent_decode query (b'%' ∷ hex_digit (c / 16) ∷ hex_digit (c % 16) ∷ s) ≡ some (c ∷ t)
unfolding percent_decode
decode_hex query c s t h e =
    rw (hex_value-hex_digit (c / 16) (omega arith), hex_value-hex_digit (c % 16) (omega arith), e)
      (ap (λ d. some (d ∷ t)) (omega arith))

-- What a reading of the escaped text gives: a space, where a plus sign stands for one.
abbrev pub space_read : Bool → ℕ → ℕ
space_read query c = if not query && c == b' ' then b'+' else c

decode-escape_byte :
    (query : Bool) (c : ℕ) (s t : Str)
    → c < 256
    → percent_decode query s ≡ some t
    → percent_decode query (escape_byte c ++ s) ≡ some (space_read query c ∷ t)
unfolding escape_byte
decode-escape_byte query c s t h e = elim (Bool-cases (is_unreserved c)) [
  | inl plain ↦ rw plain (
      decode_plain query c s t (ground (arith, plain)) e
      ∙ ap (λ d. some (d ∷ t)) (ground (arith, plain)))
  | inr other ↦ elim (Bool-cases (c == b' ')) [
    | inl space ↦
        rw (other, space)
          (decode_plain query b'+' s t refl e ∙ ap (λ d. some (d ∷ t)) (ground (arith, space)))
    | inr code ↦
        rw (other, code)
          (decode_hex query c s t h e ∙ ap (λ d. some (d ∷ t)) (ground (arith, code)))
  ]
]

pub percent_decode-query_escape :
    (query : Bool) (s : Str)
    → IsBytes s
    → percent_decode query (query_escape s) ≡ some (map (space_read query) s)
unfolding query_escape
percent_decode-query_escape query [] h = unfold percent_decode in refl
percent_decode-query_escape query (c ∷ s) h =
    decode-escape_byte query c (query_escape s) (map (space_read query) s) h.0
      (percent_decode-query_escape query s h.1)

-- What escaping writes: unreserved bytes, percent and plus signs.
abbrev pub is_escaped : ℕ → Bool
is_escaped c = is_unreserved c || c == b'%' || c == b'+'

pub query_escape-All : (s : Str) → IsBytes s → All (λ c. is_escaped c ≡ true) (query_escape s)
unfolding query_escape escape_byte
query_escape-All [] h = tt
query_escape-All (c ∷ s) h =
    All-append _ (escape_byte c) (query_escape s) (ground (arith, h)) (query_escape-All s h.1)
