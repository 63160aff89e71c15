-- ===== src/Lexer/Scan/Positions.antt =====
-- parser/lexer/lex.go: the position that `Next` counts is that of the runes read.
use exp.Base.{
  ℕ, ◌+◌, ◌≡◌, refl, ◌∙◌, ap, true, false, some, List, [], ◌∷◌, ◌++◌, Text, ◌==◌, if◌then◌else◌,
  arith,
}
use exp.Lexer.Scan.{Rune, Pos, Lexer, advance, next, next_in}

-- The lines begun, the column and the width of a text, rune by rune from its end: an independent
-- count, over the whole list.
abbrev pub newlines : List (ℕ × ℕ) → ℕ
newlines [] = 0
newlines ((rn, w) ∷ rs) = (if rn == 10 then 1 else 0) + newlines rs

abbrev pub width : List (ℕ × ℕ) → ℕ
width [] = 0
width ((rn, w) ∷ rs) = w + width rs

-- The column behind a text that begins at the column `col`.
abbrev pub column : ℕ → List (ℕ × ℕ) → ℕ
column col [] = col
column col ((rn, w) ∷ rs) = column (if rn == 10 then 0 else if rn == 13 then col else col + 1) rs

abbrev pub spelled : (Rune → Text) → List (ℕ × ℕ) → Text
spelled encode [] = []
spelled encode ((rn, w) ∷ rs) = encode (some rn) ++ spelled encode rs

module _ (encode : Rune → Text) where
  -- As many calls of `Next` as the list is long.
  abbrev pub nexts : List (ℕ × ℕ) → Lexer → Lexer
  nexts [] l = l
  nexts (r ∷ rs) l = nexts rs (next encode l).0

  next-next_in :
      (rn w : ℕ) (rs : List (ℕ × ℕ)) (l : Lexer)
      → l.eof ≡ false
      → l.source ≡ (rn, w) ∷ rs
      → next encode l ≡ next_in encode ((rn, w) ∷ rs) l
  unfolding next
  next-next_in rn w rs l e h =
      ap (λ b. if b then (l, false) else next_in encode l.source l) e
      ∙ ap (λ s. next_in encode s l) h

  -- What one successful call of `Next` does.
  pub next-reads :
      (rn w : ℕ) (rs : List (ℕ × ℕ)) (l : Lexer)
      → l.eof ≡ false
      → l.source ≡ (rn, w) ∷ rs
      → ((next encode l).0.eof ≡ false)
        × ((next encode l).0.source ≡ rs)
        × ((next encode l).0.cpos ≡ advance l.cpos rn w)
        × ((next encode l).0.cur ≡ some rn)
        × ((next encode l).1 ≡ true)
  next-reads rn w rs l e h =
      let q = next-next_in rn w rs l e h in
      (
        ap (λ r. r.0.eof) q ∙ e,
        ap (λ r. r.0.source) q,
        ap (λ r. r.0.cpos) q,
        ap (λ r. r.0.cur) q,
        ap (λ r. r.1) q,
      )

  -- What it keeps for `Back`.
  pub next-keeps :
      (rn w : ℕ) (rs : List (ℕ × ℕ)) (l : Lexer)
      → l.eof ≡ false
      → l.source ≡ (rn, w) ∷ rs
      → ((next encode l).0.pv ≡ l.cur)
        × ((next encode l).0.ppos ≡ l.cpos)
        × ((next encode l).0.intok ≡ l.intok)
  next-keeps rn w rs l e h =
      let q = next-next_in rn w rs l e h in
      (ap (λ r. r.0.pv) q, ap (λ r. r.0.ppos) q, ap (λ r. r.0.intok) q)

  advance-line : (p : Pos) (rn w : ℕ) → (advance p rn w).line ≡ p.line + (if rn == 10 then 1 else 0)
  unfolding advance
  advance-line p rn w = ground arith

  advance-col :
      (p : Pos) (rn w : ℕ)
      → (advance p rn w).col ≡ (if rn == 10 then 0 else if rn == 13 then p.col else p.col + 1)
  unfolding advance
  advance-col p rn w = ground arith

  advance-read_off : (p : Pos) (rn w : ℕ) → (advance p rn w).read_off ≡ p.read_off + w
  unfolding advance
  advance-read_off p rn w = ground arith

  -- Calls of `Next`, one for each of the runes `rs` that the source begins with, on a lexer that
  -- has not met its end, leave the rest of the source; the line has grown by the newlines among the
  -- runes, the offset by their widths, and the column is counted from the last newline, without
  -- carriage returns.
  pub nexts-position :
      (rs rest : List (ℕ × ℕ)) (l : Lexer)
      → l.eof ≡ false
      → l.source ≡ rs ++ rest
      → ((nexts rs l).source ≡ rest)
        × ((nexts rs l).cpos.line ≡ l.cpos.line + newlines rs)
        × ((nexts rs l).cpos.col ≡ column l.cpos.col rs)
        × ((nexts rs l).cpos.read_off ≡ l.cpos.read_off + width rs)
  nexts-position [] rest l e h = (h, omega arith, refl, omega arith)
  nexts-position ((rn, w) ∷ rs) rest l e h =
      let read = next-reads rn w (rs ++ rest) l e h in
      let more = nexts-position rs rest (next encode l).0 read.0 read.1 in
      let at = read.2 in
      let line = ap (λ p. p.line) at ∙ advance-line l.cpos rn w in
      let col = ap (λ p. p.col) at ∙ advance-col l.cpos rn w in
      let off = ap (λ p. p.read_off) at ∙ advance-read_off l.cpos rn w in
      (more.0, omega arith, more.2 ∙ ap (λ c. column c rs) col, omega arith)
