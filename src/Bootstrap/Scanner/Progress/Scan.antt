-- ===== src/Bootstrap/Scanner/Progress/Scan.antt =====
-- peg/bootstrap/scan.go: `Scan` returns, and a file is scanned to its end.
use exp.Base.{
  ℕ, ◌*◌, ◌≤◌, ◌<◌, ◌≡◌, refl, ap, ◌∙◌, Bool, true, false, not, ◌&&◌, ◌||◌, Option, none, some,
  Text, sym, arith, if◌then◌else◌, Good, Ends, repeat-Ends, if-All, if-Good, ◌⊎◌, inl, inr, again,
  stop,
}
use exp.Lexer.Scan.{Rune}
use exp.Peg.Ast.{Pos}
use exp.Bootstrap.Token
use exp.Bootstrap.Token.{Tid, Token, blacklisted_idents, is_blacklisted}
use exp.Bootstrap.Scanner.{
  Scanner, Host, read, errorf, errorpf, at_rune, at_end, is_letter, is_rule_def_start, is_blank,
  skip_whitespace,
}
use exp.Bootstrap.Scanner.Quoted.{scan_class, scan_string}
use exp.Bootstrap.Scanner.Scan.{
  token_of, check_ident, checked, raw_token, comment_token, operator_token, is_operator,
  scan_operator, scan_token, scan_behind, scan,
}
use exp.Bootstrap.Scanner.Progress.{
  size, Sync, read-Sync, read-le, read-lt, InStep, InStep-Sync, at_end-Sync, read_open-InStep,
}
use exp.Bootstrap.Scanner.Progress.Bodies.{
  Shrunk, scan_identifier-Ends, scan_comment-Ends, scan_code-Ends, scan_raw_string-Ends,
  scan_rule_def-Shrunk,
}
use exp.Bootstrap.Scanner.Progress.Quoted.{scan_quoted-Ends}
use exp.Bootstrap.Scanner.Progress.Chars.{scan_char-Ends}

-- At the end of the file the token is `eof`; otherwise there is less to read than before.
abbrev pub Advances : ℕ → Token × Scanner → Type 0
Advances n (t, s) = Sync s × (((t.id ≡ Token.eof) × (s.eof ≡ true)) ⊎ (size s < n))

token_of-Ends :
    (n : ℕ) (id : Tid) (p : Pos) (r : Option Scanner)
    → Ends (Shrunk n) r
    → Ends (Advances n) (token_of id p r)
token_of-Ends n id p r (s, q, h) = (_, ap (token_of id p) q, (h.0, inr h.1))

Advances-le : (m n : ℕ) (r : Token × Scanner) → m ≤ n → Advances m r → Advances n r
Advances-le m n r le (h, inl e) = (h, inl e)
Advances-le m n r le (h, inr lt) = (h, inr (omega arith))

open_file : (b c : Bool) → (not b && c) ≡ true → b ≡ false
open_file true c h = cc
open_file false c h = refl

in_step : (b c : Bool) → (not b && c) ≡ false → (b ≡ true → c ≡ true) → b ≡ c
in_step true c h k = sym (k refl)
in_step false c h k = sym h

module _ (host : Host) where
  raw_token-Ends :
      (n : ℕ) (p : Pos) (r : Option (Text × Scanner))
      → Ends (λ x. Shrunk n x.1) r
      → Ends (Advances n) (raw_token host p r)
  raw_token-Ends n p r (x, q, h) = (_, ap (raw_token host p) q, (h.0, inr h.1))

  checked-Ends :
      (n : ℕ) (p : Pos) (r : Option (Token × Scanner))
      → Ends (Advances n) r
      → Ends (Advances n) (checked host p r)
  unfolding errorpf
  checked-Ends n p r ((t, s), q, h) = (
    check_ident host p (t, s),
    ap (checked host p) q,
    if-All (Advances n) (is_blacklisted t.lit blacklisted_idents) _ _ (λ _. h) (λ _. h),
  )

  operator_token-Advances :
      (n : ℕ) (p : Pos) (r : Rune) (s : Scanner)
      → Shrunk n s
      → Advances n (operator_token host p r s)
  unfolding errorf errorpf
  operator_token-Advances n p none s h = (h.0, inr h.1)
  operator_token-Advances n p (some c) s h =
      if-All (Advances n) (is_operator c) _ _ (λ _. (h.0, inr h.1)) (λ _. (h.0, inr h.1))

  scan_operator-Ends :
      (f : ℕ) (p : Pos) (s : Scanner)
      → Sync s
      → at_end s.cur ≡ false
      → 2 * size s < f
      → Ends (Advances (size s)) (scan_operator host f p s.cur s)
  scan_operator-Ends f p s h e lt =
      let s₁ = read s in
      let less = read-lt s h e in
      let h₁ : Shrunk (size s) s₁ = (read-Sync s h, less) in
      if-All (Ends (Advances (size s)))
        (at_rune 47 s.cur && (at_rune 42 s₁.cur || at_rune 47 s₁.cur)) _ _
        (λ _.
          let (r, q, left) = scan_comment-Ends host f (size s) s₁ h₁ (omega arith) in
          (_, ap (comment_token host p) q, (left.0, inr left.1)))
        (λ _. (_, refl, operator_token-Advances (size s) p s.cur s₁ h₁))

  scan_token-Ends :
      (f : ℕ) (s : Scanner)
      → InStep s
      → 2 * size s < f
      → Ends (Advances (size s)) (scan_token host f s)
  unfolding scan_token scan_class scan_string
  scan_token-Ends f s h lt =
      let p = s.cpos in
      let n = size s in
      let sync = InStep-Sync s h in
      let branch = if-All (Ends (Advances n)) in
      branch s.eof _ _ (λ e. (_, refl, (sync, inl (refl, e))))
        (λ open_.
          let e : at_end s.cur ≡ false = sym h ∙ open_ in
          let read_ =
            λ (id : Tid) (r : Option Scanner) (x : Ends (Shrunk n) r). token_of-Ends n id p r x in
          branch (is_letter host s.cur) _ _
            (λ l.
              checked-Ends n p _
                (read_ Token.ident _ (scan_identifier-Ends host f s sync l (omega arith))))
            (λ _.
              branch (is_rule_def_start s.cur) _ _
                (λ _. read_ Token.ruledef _ (_, refl, scan_rule_def-Shrunk host s sync e))
                (λ _.
                  branch (at_rune 39 s.cur) _ _
                    (λ _. read_ Token.char _ (scan_char-Ends host n f s sync e refl lt))
                    (λ _.
                      branch (at_rune 34 s.cur) _ _
                        (λ _. read_ Token.str _ (scan_quoted-Ends host n f 34 _ s sync e refl lt))
                        (λ _.
                          branch (at_rune 96 s.cur) _ _
                            (λ _.
                              raw_token-Ends n p _
                                (scan_raw_string-Ends host f s sync e (omega arith)))
                            (λ _.
                              branch (at_rune 91 s.cur) _ _
                                (λ _.
                                  read_ Token.class _
                                    (scan_quoted-Ends host n f 93 _ s sync e refl lt))
                                (λ _.
                                  branch (at_rune 123 s.cur) _ _
                                    (λ _.
                                      read_ Token.code _
                                        (scan_code-Ends host f s sync e (omega arith)))
                                    (λ _. scan_operator-Ends f p s sync e lt))))))))

  blank-at_end : (r : Rune) → is_blank r ≡ true → at_end r ≡ false
  blank-at_end none h = cc
  blank-at_end (some r) h = refl

  abbrev Left : ℕ → Scanner → Type 0
  Left n s = InStep s × (size s ≤ n)

  blank_round-Good :
      (n : ℕ) (s : Scanner)
      → Left n s
      → Good (Left n) size (Left n) (size s) (if is_blank s.cur then again (read s) else stop s)
  blank_round-Good n s (h, le) =
      if-Good (Left n) size (Left n) (size s) (is_blank s.cur) _ _
        (λ b.
          let e = blank-at_end s.cur b in
          let less = read-lt s (InStep-Sync s h) e in
          ((read_open-InStep s (h ∙ e), omega arith), less))
        (λ _. (h, le))

  skip_whitespace-Ends :
      (f : ℕ) (s : Scanner) → InStep s → size s < f → Ends (Left (size s)) (skip_whitespace f s)
  unfolding skip_whitespace
  skip_whitespace-Ends f s h lt =
      repeat-Ends (Left (size s)) size (Left (size s)) _ (blank_round-Good (size s)) f s lt
        (blank_round-Good (size s) s (h, omega arith))

  started : (s : Scanner) → Sync s → Left (size s) (if not s.eof && at_end s.cur then read s else s)
  started s h =
      if-All (Left (size s)) (not s.eof && at_end s.cur) _ _
        (λ e. let le = read-le s h in (read_open-InStep s (open_file s.eof (at_end s.cur) e), le))
        (λ e. (in_step s.eof (at_end s.cur) e (at_end-Sync s h), omega arith))

  -- With fuel for twice the runes that are left, `Scan` returns from any state in which no rune is
  -- current behind the end of the file: it returns the token `eof` at the end of the file, or another
  -- token with less to read than before.
  pub scan-Advances :
      (f : ℕ) (s : Scanner) → Sync s → 2 * size s < f → Ends (Advances (size s)) (scan host f s)
  unfolding scan
  scan-Advances f s h lt =
      let (in_step₁, le₁) = started s h in
      let (s₂, q, (in_step₂, le₂)) = skip_whitespace-Ends f _ in_step₁ (omega arith) in
      let (r, q', done) = scan_token-Ends f s₂ in_step₂ (omega arith) in
      (r, ap (scan_behind host f) q ∙ q', Advances-le (size s₂) (size s) r (omega arith) done)
