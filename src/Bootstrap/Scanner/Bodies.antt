-- ===== src/Bootstrap/Scanner/Bodies.antt =====
-- peg/bootstrap/scan.go: the scans of identifiers, comments, code blocks, raw strings and rule
-- definitions. Each takes fuel for the rounds of its loop; `none` is a loop that it did not finish.
use exp.Base.{
  ℕ, ◌+◌, ◌-◌, Bool, true, false, Option, none, some, [], ◌∷◌, Text, codes, ◌==◌, ◌&&◌, ◌||◌,
  if◌then◌else◌, not, Round, again, stop, repeat,
}
use exp.Bootstrap.Token.{Tid, lcomment, mlcomment}
use exp.Bootstrap.Scanner.{
  Scanner, Host, errorf, read, write, reset, at_rune, at_end, is_letter, is_digit,
}

module _ (host : Host) where
  abbrev pub ident_round : Scanner → Round Scanner Scanner
  ident_round s =
      if is_letter host s.cur || is_digit host s.cur then again (read (write host s)) else stop s

  unfoldable pub scan_identifier : ℕ → Scanner → Option Scanner
  scan_identifier f s = repeat f ident_round (reset s)

  -- What `scanComment` returns, with its text in `tok`.
  abbrev pub not_terminated : Tid → Scanner → Tid × Scanner
  not_terminated id s = (id, errorf (codes "comment not terminated") s)

  -- A round of the loop; `closing` is set by a star and never reset.
  abbrev pub comment_round : Bool → Bool × Scanner → Round (Bool × Scanner) (Tid × Scanner)
  comment_round multiline (closing, s) =
      let s₁ = read (write host s) in
      if at_end s₁.cur
      then stop (if multiline then not_terminated mlcomment s₁ else (lcomment, s₁))
      else if at_rune 10 s₁.cur && not multiline
      then stop (lcomment, s₁)
      else if at_rune 42 s₁.cur && multiline
      then again (true, s₁)
      else if at_rune 47 s₁.cur && closing
      then stop (mlcomment, read (write host s₁))
      else again (closing, s₁)

  -- The `/` is behind the scanner.
  unfoldable pub scan_comment : ℕ → Scanner → Option (Tid × Scanner)
  scan_comment f s =
      let s₀ : Scanner = record s { tok = host.encode_rune (some 47) } in
      if at_end s.cur || at_rune 10 s.cur
      then some (not_terminated lcomment s₀)
      else repeat f (comment_round (at_rune 42 s.cur)) (false, s₀)

  abbrev pub code_round : ℕ × Scanner → Round (ℕ × Scanner) Scanner
  code_round (depth, s) =
      let s₁ = write host (read s) in
      if at_end s₁.cur
      then stop (errorf (codes "code block not terminated") s₁)
      else if at_rune 123 s₁.cur
      then again (depth + 1, s₁)
      else if at_rune 125 s₁.cur
      then (if depth - 1 == 0 then stop (read s₁) else again (depth - 1, s₁))
      else again (depth, s₁)

  unfoldable pub scan_code : ℕ → Scanner → Option Scanner
  scan_code f s = repeat f code_round (1, write host (reset s))

  -- The optional suffix `i` of a literal.
  abbrev pub suffix : Scanner → Scanner
  suffix s = if at_rune 105 s.cur then read (write host s) else s

  unfoldable pub strip_cr : Text → Text
  strip_cr [] = []
  strip_cr (b ∷ bs) = let rest = strip_cr bs in if b == 13 then rest else b ∷ rest

  abbrev pub raw_round : Bool × Scanner → Round (Bool × Scanner) (Bool × Scanner)
  raw_round (has_cr, s) =
      let s₁ = read s in
      if at_end s₁.cur
      then stop (has_cr, errorf (codes "raw string literal not terminated") s₁)
      else if at_rune 96 s₁.cur
      then stop (has_cr, suffix (read (write host s₁)))
      else again (has_cr || at_rune 13 s₁.cur, write host s₁)

  -- `return string(b)`, once the loop is over.
  abbrev pub stripped : Option (Bool × Scanner) → Option (Text × Scanner)
  stripped none = none
  stripped (some (has_cr, s)) = some (if has_cr then strip_cr s.tok else s.tok, s)

  unfoldable pub scan_raw_string : ℕ → Scanner → Option (Text × Scanner)
  unfolding strip_cr
  scan_raw_string f s = stripped (repeat f raw_round (false, write host (reset s)))

  -- The rune behind `<`, which should be `-`, is skipped in any case.
  abbrev pub after_less : Scanner → Scanner
  after_less s =
      let s₁ = if at_end s.cur then s else write host s in
      let s₂ =
        if at_rune 45 s.cur then s₁ else errorf (codes "rule definition not terminated") s₁ in
      read s₂

  unfoldable pub scan_rule_def : Scanner → Scanner
  scan_rule_def s =
      let s₁ = read (write host (reset s)) in if at_rune 60 s.cur then after_less s₁ else s₁
