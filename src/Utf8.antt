-- ===== src/Utf8.antt =====
-- `str.encode("utf-8")` and `bytes.decode("utf-8")` of Python, on lists of code points and of bytes.
pub mod RoundTrip
use code_assist_harness.Prelude.{
  ℕ, zero, suc, ◌+◌, ◌-◌, ◌*◌, ◌/◌, ◌%◌, Option, none, some, Bool, true, false, ◌&&◌, ◌||◌, not,
  List, [], ◌∷◌, ◌++◌, Text, ltb, leb, length, if◌then◌else◌,
}

abbrev pub is_surrogate : ℕ → Bool
is_surrogate c = leb 0xD800 c && ltb c 0xE000

-- `none` is a UnicodeEncodeError: a lone surrogate. No Python character is above U+10FFFF.
unfoldable pub encode_char : ℕ → Option (List ℕ)
encode_char c =
    if ltb c 0x80
    then some (c ∷ [])
    else if ltb c 0x800
    then some ((0xC0 + c / 64) ∷ (0x80 + c % 64) ∷ [])
    else if is_surrogate c
    then none
    else if ltb c 0x10000
    then some ((0xE0 + c / 4096) ∷ (0x80 + c / 64 % 64) ∷ (0x80 + c % 64) ∷ [])
    else if ltb c 0x110000
    then some
        ((0xF0 + c / 262144) ∷ (0x80 + c / 4096 % 64) ∷ (0x80 + c / 64 % 64) ∷ (0x80 + c % 64) ∷ [])
    else none

abbrev pub append_option : Option (List ℕ) → Option (List ℕ) → Option (List ℕ)
append_option (some xs) (some ys) = some (xs ++ ys)
append_option _ _ = none

unfoldable pub encode : Text → Option (List ℕ)
encode [] = some []
encode (c ∷ cs) = append_option (encode_char c) (encode cs)

abbrev is_continuation : ℕ → Bool
is_continuation b = leb 0x80 b && ltb b 0xC0

-- The sequences of two, three and four bytes: the first byte without its marker bits comes with the
-- rest of the input. Overlong forms, surrogates and numbers above U+10FFFF are refused.
unfoldable pub decode_two : ℕ → List ℕ → Option (ℕ × List ℕ)
decode_two a (b ∷ rest) =
    let c = a * 64 + (b - 0x80) in if is_continuation b && leb 0x80 c then some (c, rest) else none
decode_two a _ = none

unfoldable pub decode_three : ℕ → List ℕ → Option (ℕ × List ℕ)
decode_three a (b ∷ d ∷ rest) =
    let c = a * 4096 + (b - 0x80) * 64 + (d - 0x80) in
    if is_continuation b && is_continuation d && leb 0x800 c && not (is_surrogate c)
    then some (c, rest)
    else none
decode_three a _ = none

unfoldable pub decode_four : ℕ → List ℕ → Option (ℕ × List ℕ)
decode_four a (b ∷ d ∷ e ∷ rest) =
    let c = a * 262144 + (b - 0x80) * 4096 + (d - 0x80) * 64 + (e - 0x80) in
    if is_continuation b
      && is_continuation d
      && is_continuation e
      && leb 0x10000 c
      && ltb c 0x110000
    then some (c, rest)
    else none
decode_four a _ = none

-- The first character of a byte string, and the bytes after it. `none` is a UnicodeDecodeError.
unfoldable pub decode_char : List ℕ → Option (ℕ × List ℕ)
unfolding decode_two decode_three decode_four
decode_char [] = none
decode_char (a ∷ rest) =
    if ltb a 0x80
    then some (a, rest)
    else if leb 0xC0 a && ltb a 0xE0
    then decode_two (a - 0xC0) rest
    else if leb 0xE0 a && ltb a 0xF0
    then decode_three (a - 0xE0) rest
    else if leb 0xF0 a && ltb a 0xF8
    then decode_four (a - 0xF0) rest
    else none

-- Every round takes a byte, so as many rounds as there are bytes are enough.
unfoldable pub decode_rounds : ℕ → List ℕ → Option Text
decode_rounds fuel [] = some []
decode_rounds zero (b ∷ bs) = none
decode_rounds (suc fuel) (b ∷ bs) = elim (decode_char (b ∷ bs)) [
  | none ↦ none
  | some (c, rest) ↦ elim (decode_rounds fuel rest) [ none ↦ none | some cs ↦ some (c ∷ cs) ]
]

unfoldable pub decode : List ℕ → Option Text
decode bs = decode_rounds (length bs) bs
