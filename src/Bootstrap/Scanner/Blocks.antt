-- ===== src/Bootstrap/Scanner/Blocks.antt =====
-- peg/bootstrap/scan.go: the text of a code block.
use exp.Base.{
  ℕ, zero, suc, ◌+◌, ◌<◌, ◌≡◌, refl, sym, ◌∙◌, false, some, List, [], ◌∷◌, ◌++◌, Text, ◌==◌, arith,
  append_assoc, append-nil, again, repeat, Ends,
}
use exp.Lexer.Scan.{Ending, eof_error, read_error}
use exp.Bootstrap.Scanner.{Scanner, Host, read, write, fatal_error}
use exp.Bootstrap.Scanner.Bodies.{code_round, scan_code}
use exp.Bootstrap.Scanner.Comments.{before, from_fields, StandsAt, read-StandsAt}

-- The inside of a block: runes with their widths, of which the braces are balanced.
pub data Block : Type 0 where
  empty : Block
  rune : ℕ → ℕ → Block → Block
  braces : ℕ → Block → ℕ → Block → Block

-- The runes of a block, before others; the runes outside of pairs are no braces.
abbrev pub runes : Block → List (ℕ × ℕ) → List (ℕ × ℕ)
runes empty rs = rs
runes (rune r w b) rs = (r, w) ∷ runes b rs
runes (braces w b v c) rs = (123, w) ∷ runes b ((125, v) ∷ runes c rs)

abbrev pub Plain : Block → Type 0
Plain empty = Unit {0}
Plain (rune r w b) = ((r == 123) ≡ false) × ((r == 125) ≡ false) × Plain b
Plain (braces w b v c) = Plain b × Plain c

abbrev pub block_size : Block → ℕ
block_size empty = 0
block_size (rune r w b) = suc (block_size b)
block_size (braces w b v c) = suc (block_size b + suc (block_size c))

module _ (host : Host) where
  -- The text of a block.
  abbrev pub text : Block → Text
  text empty = []
  text (rune r w b) = host.encode_rune (some r) ++ text b
  text (braces w b v c) =
      host.encode_rune (some 123) ++ (text b ++ (host.encode_rune (some 125) ++ text c))

  -- The scanner has this text in `tok` and these runes to read.
  abbrev scanned : Text → List (ℕ × ℕ) → Scanner → Scanner
  scanned t rs s = record s { eof = false; source = rs; tok = t }

  rune_round :
      (depth r w : ℕ) (t : Text) (rs : List (ℕ × ℕ)) (s : Scanner)
      → (r == 123) ≡ false
      → (r == 125) ≡ false
      → code_round host (depth, scanned t ((r, w) ∷ rs) s)
        ≡ again
            (depth, scanned (t ++ host.encode_rune (some r)) rs (read (scanned t ((r, w) ∷ rs) s)))
  unfolding read write
  rune_round depth r w t rs s h k = rw (h, k) refl

  open_round :
      (depth w : ℕ) (t : Text) (rs : List (ℕ × ℕ)) (s : Scanner)
      → code_round host (suc depth, scanned t ((123, w) ∷ rs) s)
        ≡ again (
          suc (suc depth),
          scanned (t ++ host.encode_rune (some 123)) rs (read (scanned t ((123, w) ∷ rs) s)),
        )
  unfolding read write
  open_round depth w t rs s = let e : suc depth + 1 ≡ suc (suc depth) = omega arith in rw e refl

  close_round :
      (depth w : ℕ) (t : Text) (rs : List (ℕ × ℕ)) (s : Scanner)
      → code_round host (suc (suc depth), scanned t ((125, w) ∷ rs) s)
        ≡ again (
          suc depth,
          scanned (t ++ host.encode_rune (some 125)) rs (read (scanned t ((125, w) ∷ rs) s)),
        )
  unfolding read write
  close_round depth w t rs s = ground arith

  -- A loop that ends behind a closing brace ends before it.
  close-Ends :
      (Q : Scanner → Type 0) (depth v m : ℕ) (t : Text) (rs : List (ℕ × ℕ))
      → ((f : ℕ) (u : Scanner)
          → m < f
          → Ends Q (
              repeat f
                (code_round host)
                (suc depth, scanned (t ++ host.encode_rune (some 125)) rs u)))
      → (f : ℕ) (s : Scanner) → suc m < f
      → Ends Q (repeat f (code_round host) (suc (suc depth), scanned t ((125, v) ∷ rs) s))
  unfolding repeat
  close-Ends Q depth v m t rs k zero s lt = absurd (omega arith)
  close-Ends Q depth v m t rs k (suc f) s lt =
      rw (close_round depth v t rs s) (k f (read (scanned t ((125, v) ∷ rs) s)) (omega arith))

  append_five : (t a b c d : Text) → (((t ++ a) ++ b) ++ c) ++ d ≡ t ++ (a ++ (b ++ (c ++ d)))
  append_five t a b c d =
      append_assoc ((t ++ a) ++ b) c d
      ∙ append_assoc (t ++ a) b (c ++ d)
      ∙ append_assoc t a (b ++ (c ++ d))

  -- A loop that ends behind a block ends before it.
  block-Ends :
      (Q : Scanner → Type 0) (b : Block) (depth n : ℕ) (t : Text) (rs : List (ℕ × ℕ))
      → Plain b
      → ((f : ℕ) (u : Scanner)
          → n < f
          → Ends Q (repeat f (code_round host) (suc depth, scanned (t ++ text b) rs u)))
      → (f : ℕ) (s : Scanner) → block_size b + n < f
      → Ends Q (repeat f (code_round host) (suc depth, scanned t (runes b rs) s))
  unfolding repeat
  block-Ends Q empty depth n t rs h k f s lt = rw (sym (append-nil t)) (k f s (omega arith))
  block-Ends Q (rune r w b) depth n t rs h k zero s lt = absurd (omega arith)
  block-Ends Q (rune r w b) depth n t rs (h, h', l) k (suc f) s lt =
      rw (rune_round (suc depth) r w t (runes b rs) s h h') (
        block-Ends Q b depth n (t ++ host.encode_rune (some r)) rs l
          (λ f' u lt'. rw (append_assoc t (host.encode_rune (some r)) (text b)) (k f' u lt')) f
          (read (scanned t ((r, w) ∷ runes b rs) s)) (omega arith))
  block-Ends Q (braces w b v c) depth n t rs h k zero s lt = absurd (omega arith)
  block-Ends Q (braces w b v c) depth n t rs (h, h') k (suc f) s lt =
      let opened = t ++ host.encode_rune (some 123) in
      rw (open_round depth w t (runes b ((125, v) ∷ runes c rs)) s) (
        block-Ends Q b (suc depth) (suc (block_size c + n)) opened ((125, v) ∷ runes c rs) h
          (close-Ends Q depth v (block_size c + n) (opened ++ text b) (runes c rs) (
            block-Ends Q c depth n ((opened ++ text b) ++ host.encode_rune (some 125)) rs h'
              (λ f' u lt'.
                rw
                  (append_five t (host.encode_rune (some 123)) (text b)
                    (host.encode_rune (some 125)) (text c))
                  (k f' u lt'))))
          f (read (scanned t ((123, w) ∷ runes b ((125, v) ∷ runes c rs)) s)) (omega arith))

  read-tok : (rest : List (ℕ × ℕ)) (s : Scanner) → (read (before host rest s)).tok ≡ s.tok
  unfolding read
  read-tok [] s = go s.ending
    where
      go : (e : Ending) → (fatal_error e (before host [] s)).tok ≡ s.tok
      go eof_error = refl
      go (read_error t) = refl
  read-tok ((r, w) ∷ rest) s = refl

  -- The token is the block in its braces, and the scanner stands behind it, before `rest`.
  abbrev pub IsBlock : Block → List (ℕ × ℕ) → Scanner → Type 0
  IsBlock b rest s =
      (s.tok ≡ host.encode_rune (some 123) ++ (text b ++ host.encode_rune (some 125)))
      × StandsAt host rest s

  last-Ends :
      (b : Block) (v : ℕ) (rest : List (ℕ × ℕ)) (f : ℕ) (s : Scanner)
      → 0 < f
      → Ends (IsBlock b rest) (
          repeat f
            (code_round host)
            (1, scanned (host.encode_rune (some 123) ++ text b) ((125, v) ∷ rest) s))
  unfolding repeat read write
  last-Ends b v rest zero s lt = absurd (omega arith)
  last-Ends b v rest (suc f) s lt =
      let t = host.encode_rune (some 123) ++ text b in
      let q : Scanner = write host (read (scanned t ((125, v) ∷ rest) s)) in
      let joined =
        append_assoc (host.encode_rune (some 123)) (text b) (host.encode_rune (some 125)) in
      (read q, refl, (read-tok rest q ∙ joined, read-StandsAt host rest q))

  -- A code block is scanned up to the brace that closes it: if the scanner is at an opening brace, and
  -- what it will read is a text in which braces are balanced, a closing brace and more, then, with fuel
  -- for this text, `scanCode` returns the text in its braces, and the rune behind the closing brace is
  -- then current, or none at the end of the text.
  pub scan_code-IsBlock :
      (f : ℕ) (b : Block) (v : ℕ) (rest : List (ℕ × ℕ)) (s : Scanner)
      → Plain b
      → block_size b < f
      → s.eof ≡ false
      → s.cur ≡ some 123
      → s.source ≡ runes b ((125, v) ∷ rest)
      → Ends (IsBlock b rest) (scan_code host f s)
  unfolding scan_code write
  scan_code-IsBlock f b v rest s h lt he hc hs = rw hc (
      from_fields host
        (λ u. Ends (IsBlock b rest) (
          repeat f (code_round host)
            (1, record u { cur = some 123; tok = host.encode_rune (some 123) })))
        s (runes b ((125, v) ∷ rest)) he hs
        (block-Ends (IsBlock b rest) b 0 0 (host.encode_rune (some 123)) ((125, v) ∷ rest) h
          (last-Ends b v rest) f (record s { cur = some 123 }) (omega arith)))
