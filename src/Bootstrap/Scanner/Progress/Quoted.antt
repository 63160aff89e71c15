-- ===== src/Bootstrap/Scanner/Progress/Quoted.antt =====
-- peg/bootstrap/scan.go: escapes, string and character literals and classes end.
use exp.Base.{
  ℕ, zero, suc, ◌+◌, ◌*◌, ◌≤◌, ◌<◌, ◌≡◌, refl, ap, ◌∙◌, Bool, true, false, not, ◌&&◌, ◌||◌, none,
  some, codes, Text, arith, if◌then◌else◌, Good, Ends, repeat-Ends, if-All, if-Good, ◌==◌, leb, ltb,
}
use exp.Lexer.Scan.{Rune}
use exp.Bootstrap.Scanner.{
  Scanner, Host, read, write, reset, errorf, errorpf, at_rune, at_end, at_line_end, digit_val,
}
use exp.Bootstrap.Scanner.Quoted.{
  max_rune, is_simple, is_octal, check_value, bad_digit, digits, class_name_round, unicode_class,
  unknown_escape, scan_escape, quoted_round, scan_quoted, flatten,
}
use exp.Bootstrap.Scanner.Progress.{size, Sync, read-Sync, read-lt, read_to-lt}
use exp.Bootstrap.Scanner.Progress.Bodies.{
  Shrunk, GoodPair, if-GoodPair, read-Shrunk, suffix-Shrunk,
}

pub line_end-at_end : (r : Rune) → at_line_end r ≡ false → at_end r ≡ false
line_end-at_end none h = cc
line_end-at_end (some r) h = refl

module _ (host : Host) (n : ℕ) where
  abbrev Left : Bool × Scanner → Type 0
  Left r = Shrunk n r.1

  check_value-Shrunk : (max x : ℕ) (s : Scanner) → Shrunk n s → Left (check_value host max x s)
  unfolding check_value errorf errorpf
  check_value-Shrunk max x s h =
      if-All Left (ltb max x || leb 0xD800 x && leb x 0xE000) _ _ (λ _. read-Shrunk host n _ h)
        (λ _. h)

  bad_digit-Shrunk : (s : Scanner) → Shrunk n s → Left (bad_digit host s)
  unfolding errorf errorpf
  bad_digit-Shrunk s h = if-All Left (at_line_end s.cur) _ _ (λ _. h) (λ _. read-Shrunk host n _ h)

  digits-Shrunk : (k base max x : ℕ) (s : Scanner) → Shrunk n s → Left (digits host k base max x s)
  unfolding digits write
  digits-Shrunk zero base max x s h = check_value-Shrunk max x s h
  digits-Shrunk (suc k) base max x s h =
      if-All Left (leb base (digit_val s.cur)) _ _ (λ _. bad_digit-Shrunk (write host s) h)
        (λ _.
          digits-Shrunk k base max (x * base + digit_val s.cur) _
            (if-All (Shrunk n) (k == 0) _ _ (λ _. h) (λ _. read-Shrunk host n (write host s) h)))

  class_name_round-Good :
      (cnt : ℕ) (s : Scanner) → Shrunk n s → GoodPair host n Left s (class_name_round host (cnt, s))
  unfolding write errorf errorpf
  class_name_round-Good cnt s h =
      let s₁ = read (write host s) in
      let h₁ = read-Shrunk host n (write host s) h in
      if-GoodPair host n Left s (at_line_end s₁.cur) _ _ (λ _. h₁)
        (λ e.
          if-GoodPair host n Left s (at_rune 125 s₁.cur) _ _
            (λ _. if-All (Shrunk n) (ltb (cnt + 1) 2) _ _ (λ _. h₁) (λ _. h₁))
            (λ _. (h₁, read_to-lt (write host s) h.0 (line_end-at_end s₁.cur e))))

  unicode_class-Ends :
      (f : ℕ) (s : Scanner) → Shrunk n s → size s < f → Ends Left (unicode_class host f s)
  unfolding write errorf errorpf
  unicode_class-Ends f s h lt =
      if-All (Ends Left) (at_line_end s.cur) _ _
        (λ _. ((false, errorf (codes "escape sequence not terminated") s), refl, h))
        (λ _.
          if-All (Ends Left) (at_rune 123 s.cur) _ _
            (λ _.
              repeat-Ends (λ t. Shrunk n t.1) (λ t. size t.1) Left (class_name_round host)
                (λ t p. class_name_round-Good t.0 t.1 p) f (0, s) lt (class_name_round-Good 0 s h))
            (λ _. ((true, write host s), refl, h)))

  unknown_escape-Shrunk : (s : Scanner) → Shrunk n s → Left (unknown_escape host s)
  unfolding errorf errorpf
  unknown_escape-Shrunk s h =
      if-All Left (at_line_end s.cur) _ _ (λ _. h) (λ _. read-Shrunk host n _ h)

  -- The scan of an escape ends, with less to read than at its backslash.
  pub scan_escape-Ends :
      (f quote : ℕ) (s : Scanner)
      → Sync s
      → at_end s.cur ≡ false
      → size s ≤ n
      → n ≤ f
      → Ends Left (scan_escape host f quote s)
  unfolding scan_escape write
  scan_escape-Ends f quote s h e le fuel =
      let s₁ = read (write host s) in
      let s₂ = write host s₁ in
      let less = read-lt (write host s) h e in
      let h₁ : Shrunk n s₁ = (read-Sync (write host s) h, omega arith) in
      let h₂ = read-Shrunk host n s₂ h₁ in
      let branch = if-All (Ends Left) in
      branch (is_simple s₁.cur || at_rune quote s₁.cur) _ _ (λ _. ((true, s₂), refl, h₁))
        (λ _.
          branch (is_octal s₁.cur) _ _ (λ _. (_, refl, digits-Shrunk 3 8 255 0 s₁ h₁))
            (λ _.
              branch (at_rune 120 s₁.cur) _ _
                (λ _. (_, refl, digits-Shrunk 2 16 255 0 (read s₂) h₂))
                (λ _.
                  branch (at_rune 117 s₁.cur) _ _
                    (λ _. (_, refl, digits-Shrunk 4 16 max_rune 0 (read s₂) h₂))
                    (λ _.
                      branch (at_rune 85 s₁.cur) _ _
                        (λ _. (_, refl, digits-Shrunk 8 16 max_rune 0 (read s₂) h₂))
                        (λ _.
                          branch (at_rune 112 s₁.cur && quote == 93) _ _
                            (λ _. unicode_class-Ends f (read s₂) h₂ (let le₂ = h₂.1 in omega arith))
                            (λ _. (_, refl, unknown_escape-Shrunk s₂ h₁)))))))

-- A round without a read counts for one more.
abbrev pub weight : Bool × Scanner → ℕ
weight (noread, s) = 2 * size s + (if noread then 1 else 0)

abbrev pub placed : Bool → Scanner → Scanner
placed noread s = if noread then s else read s

pub placed-lt :
    (noread : Bool) (s : Scanner)
    → Sync s
    → at_end (placed noread s).cur ≡ false
    → 2 * size (placed noread s) < weight (noread, s)
placed-lt true s h e = omega arith
placed-lt false s h e = omega (arith, read_to-lt s h e)

pub weight-le : (ok : Bool) (s : Scanner) → weight (not ok, s) ≤ 2 * size s + 1
weight-le true s = omega arith
weight-le false s = omega arith

module _ (host : Host) (n : ℕ) where
  pub placed-Shrunk : (noread : Bool) (s : Scanner) → Shrunk n s → Shrunk n (placed noread s)
  placed-Shrunk noread s h = if-All (Shrunk n) noread _ _ (λ _. h) (λ _. read-Shrunk host n s h)

  quoted_round-Good :
      (f quote : ℕ) (message : Text) (noread : Bool) (s : Scanner)
      → Sync s
      → Shrunk n (placed noread s)
      → n ≤ f
      → Good
          (λ t. Shrunk n t.1)
          weight
          (Ends (Shrunk n))
          (weight (noread, s))
          (quoted_round host f quote message (noread, s))
  unfolding write errorf errorpf
  quoted_round-Good f quote message noread s h h₁ fuel =
      let s₁ = placed noread s in
      let branch =
        if-Good (λ (t : Bool × Scanner). Shrunk n t.1) weight (Ends (Shrunk n))
          (weight (noread, s)) in
      branch (at_line_end s₁.cur) _ _ (λ _. (_, refl, h₁))
        (λ e.
          let some_ = line_end-at_end s₁.cur e in
          let less = placed-lt noread s h some_ in
          branch (at_rune 92 s₁.cur) _ _
            (λ _.
              let (r, q, shrunk) =
                scan_escape-Ends host (size s₁) f quote s₁ h₁.0 some_ (omega arith) (omega arith) in
              let w = weight-le r.0 r.1 in rw q ((shrunk.0, omega arith), omega arith))
            (λ _.
              branch (at_rune quote s₁.cur) _ _
                (λ _. (
                  _,
                  refl,
                  suffix-Shrunk host n (read (write host s₁))
                      (read-Shrunk host n (write host s₁) h₁),
                ))
                (λ _. (h₁, omega arith))))

  pub scan_quoted-Ends :
      (f quote : ℕ) (message : Text) (s : Scanner)
      → Sync s
      → at_end s.cur ≡ false
      → size s ≡ n
      → 2 * n < f
      → Ends (Shrunk n) (scan_quoted host f quote message s)
  unfolding write
  scan_quoted-Ends f quote message s h e q fuel =
      let s₀ = write host (reset s) in
      let le = read-lt s₀ h e in
      let (o, done, res) =
        repeat-Ends (λ t. Shrunk n t.1) weight (Ends (Shrunk n)) (quoted_round host f quote message)
          (λ t p.
            quoted_round-Good f quote message t.0 t.1 p.0 (placed-Shrunk t.0 t.1 p) (omega arith))
          f (false, s₀) (omega arith)
          (quoted_round-Good f quote message false s₀ h (read-Sync s₀ h, omega arith)
            (omega arith)) in
      (res.0, ap (flatten host) done ∙ res.1, res.2)
