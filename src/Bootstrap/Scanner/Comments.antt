-- ===== src/Bootstrap/Scanner/Comments.antt =====
-- peg/bootstrap/scan.go: where a comment over several lines ends.
use exp.Base.{
  ℕ, zero, suc, ◌+◌, ◌<◌, ◌≡◌, refl, sym, true, false, none, some, List, [], ◌∷◌, ◌++◌, ◌==◌, arith,
  length, drop, again, repeat, Ends,
}
use exp.Lexer.Scan.{Ending, eof_error, read_error}
use exp.Bootstrap.Token.{Tid, mlcomment}
use exp.Bootstrap.Scanner.{Rune, Scanner, Host, read, write, fatal_error}
use exp.Bootstrap.Scanner.Bodies.{comment_round, scan_comment}

-- None of the runes is this one.
abbrev pub Lacks : ℕ → List (ℕ × ℕ) → Type 0
Lacks c [] = Unit {0}
Lacks c ((r, w) ∷ rs) = ((r == c) ≡ false) × Lacks c rs

abbrev pub first_rune : List (ℕ × ℕ) → Rune
first_rune [] = none
first_rune ((r, w) ∷ rs) = some r

module _ (host : Host) where
  -- A scanner with runes to read.
  abbrev pub before : List (ℕ × ℕ) → Scanner → Scanner
  before rs s = record s { eof = false; source = rs }

  -- The scanner has read the first of these runes, which is current, or has met the end.
  abbrev pub StandsAt : List (ℕ × ℕ) → Scanner → Type 0
  StandsAt rest s = (s.cur ≡ first_rune rest) × (s.source ≡ drop 1 rest)

  -- The token is a comment, and the scanner stands behind the runes before `rest`.
  abbrev pub EndsBefore : List (ℕ × ℕ) → Tid × Scanner → Type 0
  EndsBefore rest (t, s) = (t ≡ mlcomment) × StandsAt rest s

  pub from_fields :
      (P : Scanner → Type 0) (s : Scanner) (rs : List (ℕ × ℕ))
      → s.eof ≡ false
      → s.source ≡ rs
      → P (before rs s)
      → P s
  from_fields P s rs he hs t = rw (sym he, sym hs) at t

  fatal_error-StandsAt : (e : Ending) (s : Scanner) → StandsAt [] (fatal_error e (before [] s))
  fatal_error-StandsAt eof_error s = (refl, refl)
  fatal_error-StandsAt (read_error t) s = (refl, refl)

  pub read-StandsAt : (rest : List (ℕ × ℕ)) (s : Scanner) → StandsAt rest (read (before rest s))
  unfolding read
  read-StandsAt [] s = fatal_error-StandsAt s.ending s
  read-StandsAt ((r, w) ∷ rest) s = (refl, refl)

  -- Behind a star, a rune that is no slash.
  inside_round :
      (r w : ℕ) (bs : List (ℕ × ℕ)) (s : Scanner)
      → (r == 47) ≡ false
      → comment_round host true (true, before ((r, w) ∷ bs) s)
        ≡ again (true, read (write host (before ((r, w) ∷ bs) s)))
  unfolding read write
  inside_round r w bs s h = ground arith

  -- Before any star.
  outside_round :
      (r w : ℕ) (bs : List (ℕ × ℕ)) (s : Scanner)
      → (r == 42) ≡ false
      → comment_round host true (false, before ((r, w) ∷ bs) s)
        ≡ again (false, read (write host (before ((r, w) ∷ bs) s)))
  unfolding read write
  outside_round r w bs s h = ground arith

  inside-Ends :
      (f : ℕ) (between rest : List (ℕ × ℕ)) (w : ℕ) (s : Scanner)
      → Lacks 47 between
      → length between < f
      → Ends
          (EndsBefore rest)
          (repeat f (comment_round host true) (true, before (between ++ (47, w) ∷ rest) s))
  unfolding repeat read write
  inside-Ends zero between rest w s h lt = absurd (omega arith)
  inside-Ends (suc f) [] rest w s h lt = (
    (mlcomment, read (write host (read (write host (before ((47, w) ∷ rest) s))))),
    refl,
    (refl, read-StandsAt rest (write host (read (write host (before ((47, w) ∷ rest) s))))),
  )
  inside-Ends (suc f) ((r, v) ∷ bs) rest w s (h, hs) lt =
      rw (inside_round r v (bs ++ (47, w) ∷ rest) s h) (
        inside-Ends f bs rest w (read (write host (before ((r, v) ∷ (bs ++ (47, w) ∷ rest)) s))) hs
          (omega arith))

  outside-Ends :
      (f : ℕ) (outside between rest : List (ℕ × ℕ)) (v w : ℕ) (s : Scanner)
      → Lacks 42 outside
      → Lacks 47 between
      → length outside + suc (length between) < f
      → Ends (EndsBefore rest) (
          repeat f
            (comment_round host true)
            (false, before (outside ++ (42, v) ∷ (between ++ (47, w) ∷ rest)) s))
  unfolding repeat read write
  outside-Ends zero outside between rest v w s ho hb lt = absurd (omega arith)
  outside-Ends (suc f) [] between rest v w s ho hb lt =
      inside-Ends f between rest w
        (read (write host (before ((42, v) ∷ (between ++ (47, w) ∷ rest)) s))) hb (omega arith)
  outside-Ends (suc f) ((r, u) ∷ bs) between rest v w s (h, hs) hb lt =
      let behind = bs ++ (42, v) ∷ (between ++ (47, w) ∷ rest) in
      rw (outside_round r u behind s h) (
        outside-Ends f bs between rest v w (read (write host (before ((r, u) ∷ behind) s))) hs hb
          (omega arith))

  -- A comment that begins with `/*` ends at the first `/` that has a star somewhere before it, at
  -- whatever distance: if the scanner is at the opening star, with fuel for the text up to this `/`,
  -- then `scanComment` returns a comment over several lines, and the rune behind this `/` is then
  -- current, or none at the end of the text.
  pub scan_comment-first_slash :
      (f : ℕ) (outside between rest : List (ℕ × ℕ)) (v w : ℕ) (s : Scanner)
      → Lacks 42 outside
      → Lacks 47 between
      → length outside + suc (length between) < f
      → s.eof ≡ false
      → s.cur ≡ some 42
      → s.source ≡ outside ++ (42, v) ∷ (between ++ (47, w) ∷ rest)
      → Ends (EndsBefore rest) (scan_comment host f s)
  unfolding scan_comment
  scan_comment-first_slash f outside between rest v w s ho hb lt he hc hs = rw hc (
      from_fields
        (λ u. Ends (EndsBefore rest) (
          repeat f (comment_round host true)
            (false, record u { cur = some 42; tok = host.encode_rune (some 47) })))
        s (outside ++ (42, v) ∷ (between ++ (47, w) ∷ rest)) he hs
        (outside-Ends f outside between rest v w
          (record s { cur = some 42; tok = host.encode_rune (some 47) }) ho hb lt))
