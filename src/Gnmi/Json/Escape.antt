-- ===== src/Gnmi/Json/Escape.antt =====
-- A strict JSON reader, on the strings that are escaped.
use grace_server.Base.{
  ℕ, zero, suc, ◌+◌, ◌*◌, ◌-◌, ◌/◌, ◌%◌, ◌<◌, ◌≡◌, refl, inl, inr, false, ◌&&◌, Option, none, some,
  [], ◌∷◌, ◌++◌, arith, append_assoc, length, ap, ◌∙◌, ltb, leb, ◌==◌, if◌then◌else◌, Bytes,
  Bool-cases,
}
use grace_server.Gnmi.Json.{escape_byte, json_escape, hex_digit, quote}

-- The value of a hexadecimal digit.
abbrev pub hex_value : ℕ → Option ℕ
hex_value d =
    if leb b'0' d && leb d b'9'
    then some (d - b'0')
    else if leb b'a' d && leb d b'f'
    then some (d - b'a' + 10)
    else if leb b'A' d && leb d b'F'
    then some (d - b'A' + 10)
    else none

-- The letters behind a backslash, RFC 8259 section 7.
abbrev pub short_escape : ℕ → Option ℕ
short_escape c =
    if c == b'"'
    then some b'"'
    else if c == b'\\'
    then some b'\\'
    else if c == b'/'
    then some b'/'
    else if c == b'b'
    then some 8
    else if c == b'f'
    then some 12
    else if c == b'n'
    then some 10
    else if c == b'r'
    then some 13
    else if c == b't'
    then some 9
    else none

abbrev pub hex_step : Option ℕ → Option ℕ → Option ℕ
hex_step (some a) (some d) = some (16 * a + d)
hex_step _ _ = none

abbrev pub hex_code : ℕ → ℕ → ℕ → ℕ → Option ℕ
hex_code w x y z =
    hex_step (hex_step (hex_step (hex_value w) (hex_value x)) (hex_value y)) (hex_value z)

abbrev pub with_rest : Option ℕ → Bytes → Option (ℕ × Bytes)
with_rest none s = none
with_rest (some c) s = some (c, s)

-- What stands behind a backslash. A code is given as its number.
unfoldable pub read_escape : Bytes → Option (ℕ × Bytes)
read_escape [] = none
read_escape (e ∷ []) = with_rest (short_escape e) []
read_escape (e ∷ w ∷ []) = with_rest (short_escape e) (w ∷ [])
read_escape (e ∷ w ∷ x ∷ []) = with_rest (short_escape e) (w ∷ x ∷ [])
read_escape (e ∷ w ∷ x ∷ y ∷ []) = with_rest (short_escape e) (w ∷ x ∷ y ∷ [])
read_escape (e ∷ w ∷ x ∷ y ∷ z ∷ s) =
    if e == b'u'
    then with_rest (hex_code w x y z) s
    else with_rest (short_escape e) (w ∷ x ∷ y ∷ z ∷ s)

-- One character of a JSON string; a control character must be escaped.
unfoldable pub read_char : Bytes → Option (ℕ × Bytes)
unfolding read_escape
read_char [] = none
read_char (c ∷ s) = if c == b'\\' then read_escape s else if ltb c 0x20 then none else some (c, s)

abbrev pub cons_first : ℕ → Option (Bytes × Bytes) → Option (Bytes × Bytes)
cons_first c none = none
cons_first c (some (s, rest)) = some (c ∷ s, rest)

-- The string behind an opening quote, and what follows the closing one.
unfoldable pub read_string : ℕ → Bytes → Option (Bytes × Bytes)
unfolding read_char
read_string zero s = none
read_string (suc fuel) [] = none
read_string (suc fuel) (c ∷ s) = if c == b'"' then some ([], s) else elim (read_char (c ∷ s)) [
  | none ↦ none
  | some (x, rest) ↦ cons_first x (read_string fuel rest)
]

hex_value-hex_digit : (d : ℕ) → d < 16 → hex_value (hex_digit d) ≡ some d
unfolding hex_digit
hex_value-hex_digit d h = ground arith

read_short :
    (e x : ℕ) (s : Bytes)
    → (e == b'u') ≡ false
    → short_escape e ≡ some x
    → read_escape (e ∷ s) ≡ some (x, s)
unfolding read_escape
read_short e x [] n h = rw h refl
read_short e x (w ∷ []) n h = rw h refl
read_short e x (w ∷ y ∷ []) n h = rw h refl
read_short e x (w ∷ y ∷ z ∷ []) n h = rw h refl
read_short e x (w ∷ y ∷ z ∷ v ∷ s) n h = rw (n, h) refl

read_low :
    (c : ℕ) (s : Bytes)
    → c < 0x20
    → read_escape (b'u' ∷ b'0' ∷ b'0' ∷ hex_digit (c / 16) ∷ hex_digit (c % 16) ∷ s) ≡ some (c, s)
unfolding read_escape
read_low c s h =
    rw (hex_value-hex_digit (c / 16) (omega arith), hex_value-hex_digit (c % 16) (omega arith))
      (ground arith)

read_backslash :
    (fuel c : ℕ) (t s : Bytes)
    → read_escape t ≡ some (c, s)
    → read_string (suc fuel) (b'\\' ∷ t) ≡ cons_first c (read_string fuel s)
unfolding read_string read_char
read_backslash fuel c t s e = rw e refl

read_plain :
    (fuel c : ℕ) (s : Bytes)
    → (c == b'"') ≡ false
    → (c == b'\\') ≡ false
    → ltb c 0x20 ≡ false
    → read_string (suc fuel) (c ∷ s) ≡ cons_first c (read_string fuel s)
unfolding read_string read_char
read_plain fuel c s q b l = rw (q, b, l) refl

-- What is written for a character is read as that character.
read_step :
    (fuel c : ℕ) (s : Bytes)
    → read_string (suc fuel) (escape_byte c ++ s) ≡ cons_first c (read_string fuel s)
unfolding escape_byte
read_step fuel c s = elim (Bool-cases (c == b'"')) [
  | inl q ↦ rw q (read_backslash fuel c _ s (read_short _ c s refl (ground arith)))
  | inr q ↦ elim (Bool-cases (c == b'\\')) [
    | inl b ↦ rw (q, b) (read_backslash fuel c _ s (read_short _ c s refl (ground arith)))
    | inr b ↦ elim (Bool-cases (c == 10)) [
      | inl n ↦ rw (q, b, n) (read_backslash fuel c _ s (read_short _ c s refl (ground arith)))
      | inr n ↦ elim (Bool-cases (c == 13)) [
        | inl r ↦ rw (q, b, n, r) (read_backslash fuel c _ s (read_short _ c s refl (ground arith)))
        | inr r ↦ elim (Bool-cases (c == 9)) [
          | inl t ↦
              rw (q, b, n, r, t) (read_backslash fuel c _ s (read_short _ c s refl (ground arith)))
          | inr t ↦ elim (Bool-cases (ltb c 0x20)) [
            | inl l ↦
                rw (q, b, n, r, t, l) (read_backslash fuel c _ s (read_low c s (ground arith)))
            | inr l ↦ rw (q, b, n, r, t, l) (read_plain fuel c s q b l)
          ]
        ]
      ]
    ]
  ]
]

read_end : (fuel : ℕ) (rest : Bytes) → read_string (suc fuel) (b'"' ∷ rest) ≡ some ([], rest)
unfolding read_string
read_end fuel rest = refl

read_escaped :
    (s rest : Bytes) (fuel : ℕ)
    → length s < fuel
    → read_string fuel (json_escape s ++ b'"' ∷ rest) ≡ some (s, rest)
unfolding json_escape
read_escaped s rest zero h = elim h [ ]
read_escaped [] rest (suc fuel) h = read_end fuel rest
read_escaped (c ∷ s) rest (suc fuel) h =
    rw (append_assoc (escape_byte c) (json_escape s) (b'"' ∷ rest))
      (read_step fuel c _ ∙ ap (cons_first c) (read_escaped s rest fuel (omega arith)))

-- Any bytes at all, escaped and put between quotes, are read back by a reader of JSON strings that
-- refuses raw control characters, with fuel above their number, and the reader stops at the closing
-- quote, whatever follows.
pub read_string-quote :
    (s rest : Bytes) (fuel : ℕ)
    → length s < fuel
    → (t : Bytes) × (quote s ++ rest ≡ b'"' ∷ t) × (read_string fuel t ≡ some (s, rest))
unfolding quote
read_string-quote s rest fuel h =
    (_, refl, rw (append_assoc (json_escape s) (b'"' ∷ []) rest) (read_escaped s rest fuel h))
