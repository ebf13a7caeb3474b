-- ===== src/Text/Format.antt =====
-- The verbs `%d` and `%q` of package `fmt`. A byte from 128 on is printed as it is.
use cabure.Base.{
  ℕ, zero, suc, ◌+◌, ◌/◌, ◌%◌, [], ◌∷◌, ◌++◌, ◌==◌, nat_eq, ltb, is_empty, ◌&&◌, if◌then◌else◌,
}
use cabure.Text.{Text, codes}

-- The digits of a number before those that are there. A number has no more digits than its value.
decimal_onto : ℕ → ℕ → Text → Text
decimal_onto zero n acc = acc
decimal_onto (suc fuel) n acc =
    let rest = decimal_onto fuel (n / 10) ((b'0' + n % 10) ∷ acc) in
    if ltb n 10 then (b'0' + n) ∷ acc else rest

-- `%d`
unfoldable pub decimal : ℕ → Text
unfolding decimal_onto
decimal n = decimal_onto (suc n) n []

hex_digit : ℕ → ℕ
hex_digit n = if ltb n 10 then b'0' + n else 87 + n

-- One byte inside a quoted text, as `strconv.Quote` writes it.
escape_byte : ℕ → Text
escape_byte c =
    if c == b'"'
    then 92 ∷ c ∷ []
    else if c == 92
    then 92 ∷ c ∷ []
    else if c == 7
    then 92 ∷ b'a' ∷ []
    else if c == 8
    then 92 ∷ b'b' ∷ []
    else if c == 12
    then 92 ∷ b'f' ∷ []
    else if c == 10
    then 92 ∷ b'n' ∷ []
    else if c == 13
    then 92 ∷ b'r' ∷ []
    else if c == 9
    then 92 ∷ b't' ∷ []
    else if c == 11
    then 92 ∷ b'v' ∷ []
    else if ltb c 32
    then 92 ∷ b'x' ∷ hex_digit (c / 16) ∷ hex_digit (c % 16) ∷ []
    else if c == 127
    then 92 ∷ b'x' ∷ b'7' ∷ b'f' ∷ []
    else c ∷ []

escape : Text → Text
escape [] = []
escape (c ∷ s) = escape_byte c ++ escape s

-- `%q`
unfoldable pub quoted : Text → Text
unfolding escape escape_byte hex_digit
quoted s = b'"' ∷ (escape s ++ (b'"' ∷ []))

-- The digits of a fraction behind the point, without zeros at the end.
fraction_onto : ℕ → ℕ → Text → Text
fraction_onto zero n acc = if is_empty acc then [] else b'.' ∷ acc
fraction_onto (suc places) n acc =
    fraction_onto places (n / 10)
      (if is_empty acc && n % 10 == 0 then [] else (b'0' + n % 10) ∷ acc)

-- `time.Duration.String` of a duration that is not negative.
unfoldable pub duration_string : ℕ → Text
unfolding fraction_onto
duration_string d =
    let seconds = d / 1000000000 in
    let minutes = seconds / 60 in
    let hours = minutes / 60 in
    let s = decimal (seconds % 60) ++ (fraction_onto 9 d [] ++ codes "s") in
    let ms = decimal (minutes % 60) ++ (b'm' ∷ s) in
    if d == 0
    then codes "0s"
    else if ltb d 1000
    then decimal d ++ codes "ns"
    else if ltb d 1000000
    then decimal (d / 1000) ++ (fraction_onto 3 d [] ++ (0xc2 ∷ 0xb5 ∷ codes "s"))
    else if ltb d 1000000000
    then decimal (d / 1000000) ++ (fraction_onto 6 d [] ++ codes "ms")
    else if minutes == 0
    then s
    else if hours == 0
    then ms
    else decimal hours ++ (b'h' ∷ ms)
