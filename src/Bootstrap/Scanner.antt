-- ===== src/Bootstrap/Scanner.antt =====
-- peg/bootstrap/scan.go: the scanner's state, and the methods that the others share.
-- A rune is `none` for the code's -1. The source is the list of the runes that `ReadRune` will
-- return, with their widths, and the error behind them.
pub mod Bodies
pub mod Quoted
pub mod Scan
pub mod Progress
pub mod Comments
pub mod Blocks
use exp.Base.{
  ℕ, ◌+◌, ◌-◌, Bool, true, false, Option, none, some, List, [], ◌∷◌, ◌++◌, Text, codes, ◌==◌, leb,
  ◌&&◌, ◌||◌, if◌then◌else◌, not, Round, again, stop, repeat,
}
use exp.Lexer.Scan.{Rune, Ending, eof_error, read_error}
use exp.Peg.Ast.{Pos}
use exp.Bootstrap.Token.{Token}

-- `errs` is what the error handler was called with.
pub record Scanner : Type 0 where
  pub source : List (ℕ × ℕ)
  pub ending : Ending
  pub eof : Bool
  pub cpos : Pos
  pub cur : Rune
  pub cw : ℕ
  pub tok : Text
  pub errs : List (Pos × Text)

-- What the scanner takes from Go's library: the UTF-8 of a rune, and that of U+FFFD for -1; letters
-- and digits beyond ASCII; the formats %#U and %q.
pub record Host : Type 0 where
  pub encode_rune : Rune → Text
  pub is_letter : ℕ → Bool
  pub is_digit : ℕ → Bool
  pub format_rune : Rune → Text
  pub quote : Text → Text

unfoldable pub init : Text → List (ℕ × ℕ) → Ending → Scanner
init filename source ending = record {
  source = source;
  ending = ending;
  eof = false;
  cpos = record { filename = filename; line = 1; col = 0; off = 0 };
  cur = none;
  cw = 0;
  tok = [];
  errs = [];
}

unfoldable pub errorpf : Pos → Text → Scanner → Scanner
errorpf p e s = record s { errs = s.errs ++ (p, e) ∷ [] }

unfoldable pub errorf : Text → Scanner → Scanner
unfolding errorpf
errorf e s = errorpf s.cpos e s

abbrev pub fatal_error : Ending → Scanner → Scanner
fatal_error eof_error s = record s { cur = none; eof = true }
fatal_error (read_error e) s = record s {
  cur = none;
  eof = true;
  errs = s.errs ++ (s.cpos, e) ∷ [];
}

-- The position of the rune `r`, behind one of the width `w`.
unfoldable pub next_pos : Pos → ℕ → ℕ → Pos
next_pos p w r =
    if r == 10
    then record p { off = p.off + w; line = p.line + 1; col = 0 }
    else record p { off = p.off + w; col = p.col + 1 }

abbrev pub read_in : List (ℕ × ℕ) → Scanner → Scanner
read_in [] s = fatal_error s.ending s
read_in ((r, w) ∷ source) s = record s {
  source = source;
  cur = some r;
  cpos = next_pos s.cpos s.cw r;
  cw = w;
}

unfoldable pub read : Scanner → Scanner
read s = if s.eof then s else read_in s.source s

-- `s.tok.WriteRune(s.cur)`
unfoldable pub write : Host → Scanner → Scanner
write host s = record s { tok = s.tok ++ host.encode_rune s.cur }

abbrev pub reset : Scanner → Scanner
reset s = record s { tok = [] }

abbrev pub at_rune : ℕ → Rune → Bool
at_rune want none = false
at_rune want (some r) = r == want

-- The end of the text, or a line break.
abbrev pub at_line_end : Rune → Bool
at_line_end none = true
at_line_end (some r) = r == 10

abbrev pub at_end : Rune → Bool
at_end none = true
at_end (some r) = false

unfoldable pub is_letter : Host → Rune → Bool
is_letter host none = false
is_letter host (some r) =
    leb 97 r && leb r 122 || leb 65 r && leb r 90 || r == 95 || leb 128 r && host.is_letter r

unfoldable pub is_digit : Host → Rune → Bool
is_digit host none = false
is_digit host (some r) = leb 48 r && leb r 57 || leb 128 r && host.is_digit r

unfoldable pub digit_val : Rune → ℕ
digit_val none = 16
digit_val (some r) =
    if leb 48 r && leb r 57
    then r - 48
    else if leb 97 r && leb r 102
    then r - 97 + 10
    else if leb 65 r && leb r 70
    then r - 65 + 10
    else 16

unfoldable pub is_rule_def_start : Rune → Bool
is_rule_def_start none = false
is_rule_def_start (some r) = r == 61 || r == 60 || r == 0x2190 || r == 0x27F5

abbrev pub is_blank : Rune → Bool
is_blank r = at_rune 32 r || at_rune 9 r || at_rune 13 r

unfoldable pub skip_whitespace : ℕ → Scanner → Option Scanner
unfolding read
skip_whitespace f s = repeat f (λ s'. if is_blank s'.cur then again (read s') else stop s') s
