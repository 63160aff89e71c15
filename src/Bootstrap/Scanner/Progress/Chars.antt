-- ===== src/Bootstrap/Scanner/Progress/Chars.antt =====
-- peg/bootstrap/scan.go: character literals end.
use exp.Base.{
  ℕ, ◌*◌, ◌≤◌, ◌<◌, ◌≡◌, refl, ap, ◌∙◌, Bool, false, arith, Good, Ends, repeat-Ends, if-All,
  if-Good, ◌==◌,
}
use exp.Bootstrap.Scanner.{
  Scanner, Host, write, reset, errorf, errorpf, at_rune, at_end, at_line_end,
}
use exp.Bootstrap.Scanner.Quoted.{flatten, char_round, scan_char}
use exp.Bootstrap.Scanner.Progress.{size, Sync, read-Sync, read-lt}
use exp.Bootstrap.Scanner.Progress.Bodies.{Shrunk, read-Shrunk, suffix-Shrunk}
use exp.Bootstrap.Scanner.Progress.Quoted.{
  weight, placed, placed-lt, weight-le, placed-Shrunk, line_end-at_end, scan_escape-Ends,
}

module _ (host : Host) (n : ℕ) where
  abbrev Kept : ℕ × Bool × Scanner → Type 0
  Kept t = Shrunk n t.2

  abbrev triple_weight : ℕ × Bool × Scanner → ℕ
  triple_weight t = weight (t.1, t.2)

  char_round-Good :
      (f cnt : ℕ) (noread : Bool) (s : Scanner)
      → Sync s
      → Shrunk n (placed noread s)
      → n ≤ f
      → Good Kept triple_weight
          (Ends (Shrunk n))
          (weight (noread, s))
          (char_round host f (cnt, noread, s))
  unfolding write errorf errorpf
  char_round-Good f cnt noread s h h₁ fuel =
      let s₁ = placed noread s in
      let h₂ = read-Shrunk host n (write host s₁) h₁ in
      let branch = if-Good Kept triple_weight (Ends (Shrunk n)) (weight (noread, s)) in
      branch (at_line_end s₁.cur) _ _ (λ _. (_, refl, h₁))
        (λ e.
          let some_ = line_end-at_end s₁.cur e in
          let less = placed-lt noread s h some_ in
          branch (at_rune 92 s₁.cur) _ _
            (λ _.
              let (r, q, shrunk) =
                scan_escape-Ends host (size s₁) f 39 s₁ h₁.0 some_ (omega arith) (omega arith) in
              let w = weight-le r.0 r.1 in rw q ((shrunk.0, omega arith), omega arith))
            (λ _.
              branch (at_rune 39 s₁.cur) _ _
                (λ _. (
                  _,
                  refl,
                  suffix-Shrunk host n _ (if-All (Shrunk n) (cnt == 1) _ _ (λ _. h₂) (λ _. h₂)),
                ))
                (λ _. (h₁, omega arith))))

  pub scan_char-Ends :
      (f : ℕ) (s : Scanner)
      → Sync s
      → at_end s.cur ≡ false
      → size s ≡ n
      → 2 * n < f
      → Ends (Shrunk n) (scan_char host f s)
  unfolding scan_char write
  scan_char-Ends f s h e q fuel =
      let s₀ = write host (reset s) in
      let le = read-lt s₀ h e in
      let (o, done, res) =
        repeat-Ends Kept triple_weight (Ends (Shrunk n)) (char_round host f)
          (λ t p. char_round-Good f t.0 t.1 t.2 p.0 (placed-Shrunk host n t.1 t.2 p) (omega arith))
          f (0, false, s₀) (omega arith)
          (char_round-Good f 0 false s₀ h (read-Sync s₀ h, omega arith) (omega arith)) in
      (res.0, ap (flatten host) done ∙ res.1, res.2)
