-- ===== src/Bootstrap/Scanner/Quoted.antt =====
-- peg/bootstrap/scan.go: the scans of character and string literals and of classes.
use exp.Base.{
  ℕ, zero, suc, ◌+◌, ◌*◌, Bool, true, false, Option, none, some, ◌++◌, Text, codes, ◌==◌, ltb, leb,
  ◌&&◌, ◌||◌, if◌then◌else◌, not, Round, again, stop, repeat,
}
use exp.Lexer.Scan.{Rune}
use exp.Bootstrap.Scanner.{
  Scanner, Host, errorf, read, write, reset, at_rune, at_line_end, digit_val,
}
use exp.Bootstrap.Scanner.Bodies.{suffix}

-- `unicode.MaxRune`
abbrev pub max_rune : ℕ
max_rune = 0x10FFFF

abbrev pub not_terminated : Text
not_terminated = codes "escape sequence not terminated"

-- The escapes of one character, but for that of the quote.
abbrev pub is_simple : Rune → Bool
is_simple none = false
is_simple (some r) =
    r == 97 || r == 98 || r == 102 || r == 110 || r == 114 || r == 116 || r == 118 || r == 92

abbrev pub is_octal : Rune → Bool
is_octal none = false
is_octal (some r) = leb 48 r && leb r 55

module _ (host : Host) where
  -- The tests on the value of a numeric escape.
  unfoldable pub check_value : ℕ → ℕ → Scanner → Bool × Scanner
  check_value max x s =
      if ltb max x || leb 0xD800 x && leb x 0xE000
      then (false, read (errorf (codes "escape sequence is invalid Unicode code point") s))
      else (true, s)

  -- What is done at a character that is no digit.
  abbrev pub bad_digit : Scanner → Bool × Scanner
  bad_digit s = if at_line_end s.cur then (false, errorf not_terminated s) else (
    false,
    read (
        errorf
          (codes "illegal character " ++ (host.format_rune s.cur ++ codes " in escape sequence"))
          s),
  )

  -- The loop over the `n` digits that are left. The value of eight digits fits in 32 bits.
  unfoldable pub digits : ℕ → ℕ → ℕ → ℕ → Scanner → Bool × Scanner
  unfolding check_value
  digits zero base max x s = check_value max x s
  digits (suc n) base max x s =
      let s₁ = write host s in
      let rest = digits n base max (x * base + digit_val s.cur) (if n == 0 then s₁ else read s₁) in
      if leb base (digit_val s.cur) then bad_digit s₁ else rest

  -- A round of the loop over the name of a Unicode class, on the count of its characters.
  abbrev pub class_name_round : ℕ × Scanner → Round (ℕ × Scanner) (Bool × Scanner)
  class_name_round (cnt, s) =
      let s₁ = read (write host s) in
      let s₂ =
        if ltb (cnt + 1) 2
        then errorf (codes "empty Unicode character class escape sequence") s₁
        else s₁ in
      if at_line_end s₁.cur
      then stop (false, errorf not_terminated s₁)
      else if at_rune 125 s₁.cur
      then stop (true, write host s₂)
      else again (cnt + 1, s₁)

  abbrev pub unicode_class : ℕ → Scanner → Option (Bool × Scanner)
  unicode_class f s =
      if at_line_end s.cur
      then some (false, errorf not_terminated s)
      else if at_rune 123 s.cur
      then repeat f class_name_round (0, s)
      else some (true, write host s)

  abbrev pub unknown_escape : Scanner → Bool × Scanner
  unknown_escape s =
      if at_line_end s.cur
      then (false, errorf not_terminated s)
      else (false, read (errorf (codes "unknown escape sequence") s))

  -- `scanEscape`, at the backslash; the fuel is for the name of a Unicode class.
  unfoldable pub scan_escape : ℕ → ℕ → Scanner → Option (Bool × Scanner)
  unfolding digits
  scan_escape f quote s =
      let s₁ = read (write host s) in
      let s₂ = write host s₁ in
      if is_simple s₁.cur || at_rune quote s₁.cur
      then some (true, s₂)
      else if is_octal s₁.cur
      then some (digits 3 8 255 0 s₁)
      else if at_rune 120 s₁.cur
      then some (digits 2 16 255 0 (read s₂))
      else if at_rune 117 s₁.cur
      then some (digits 4 16 max_rune 0 (read s₂))
      else if at_rune 85 s₁.cur
      then some (digits 8 16 max_rune 0 (read s₂))
      else if at_rune 112 s₁.cur && quote == 93
      then unicode_class f (read s₂)
      else some (unknown_escape s₂)

  -- The round after an escape: without a read if the escape was not valid.
  abbrev pub after_escape : Option (Bool × Scanner) → Round (Bool × Scanner) (Option Scanner)
  after_escape none = stop none
  after_escape (some (ok, s)) = again (not ok, s)

  -- A round of `scanString` and of `scanClass`, which differ in the quote and in the message.
  abbrev pub quoted_round : ℕ → ℕ → Text → Bool × Scanner → Round (Bool × Scanner) (Option Scanner)
  quoted_round f quote message (noread, s) =
      let s₁ = if noread then s else read s in
      if at_line_end s₁.cur
      then stop (some (errorf message s₁))
      else if at_rune 92 s₁.cur
      then after_escape (scan_escape f quote s₁)
      else if at_rune quote s₁.cur
      then stop (some (suffix host (read (write host s₁))))
      else again (false, write host s₁)

  abbrev pub flatten : Option (Option Scanner) → Option Scanner
  flatten none = none
  flatten (some o) = o

  abbrev pub scan_quoted : ℕ → ℕ → Text → Scanner → Option Scanner
  scan_quoted f quote message s =
      flatten (repeat f (quoted_round f quote message) (false, write host (reset s)))

  unfoldable pub scan_class : ℕ → Scanner → Option Scanner
  scan_class f s = scan_quoted f 93 (codes "character class not terminated") s

  unfoldable pub scan_string : ℕ → Scanner → Option Scanner
  scan_string f s = scan_quoted f 34 (codes "string literal not terminated") s

  abbrev pub after_char_escape :
      ℕ → Option (Bool × Scanner) → Round (ℕ × Bool × Scanner) (Option Scanner)
  after_char_escape cnt none = stop none
  after_char_escape cnt (some (ok, s)) = again (cnt + 1, not ok, s)

  -- A round of `scanChar`, which counts the characters.
  abbrev pub char_round : ℕ → ℕ × Bool × Scanner → Round (ℕ × Bool × Scanner) (Option Scanner)
  char_round f (cnt, noread, s) =
      let s₁ = if noread then s else read s in
      let s₂ = read (write host s₁) in
      let s₃ = if cnt == 1 then s₂ else errorf (codes "rune literal is not a single rune") s₂ in
      if at_line_end s₁.cur
      then stop (some (errorf (codes "rune literal not terminated") s₁))
      else if at_rune 92 s₁.cur
      then after_char_escape cnt (scan_escape f 39 s₁)
      else if at_rune 39 s₁.cur
      then stop (some (suffix host s₃))
      else again (cnt + 1, false, write host s₁)

  unfoldable pub scan_char : ℕ → Scanner → Option Scanner
  scan_char f s = flatten (repeat f (char_round f) (0, false, write host (reset s)))
