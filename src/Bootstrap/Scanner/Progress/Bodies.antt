-- ===== src/Bootstrap/Scanner/Progress/Bodies.antt =====
-- peg/bootstrap/scan.go: identifiers, comments, code blocks, raw strings and rule definitions end.
use exp.Base.{
  ℕ, ◌+◌, ◌-◌, ◌≤◌, ◌<◌, ◌≡◌, refl, ap, Bool, true, false, not, ◌&&◌, ◌||◌, none, some, codes,
  arith, if◌then◌else◌, Bool-cases, inl, inr, Round, Good, Ends, repeat-Ends, if-Good, ◌==◌,
}
use exp.Lexer.Scan.{Rune}
use exp.Bootstrap.Token.{Tid, lcomment, mlcomment}
use exp.Bootstrap.Scanner.{
  Scanner, Host, read, write, reset, errorf, errorpf, at_rune, at_end, is_letter, is_digit,
}
use exp.Bootstrap.Scanner.Bodies.{
  ident_round, scan_identifier, comment_round, scan_comment, code_round, scan_code, raw_round,
  scan_raw_string, suffix, after_less, stripped, strip_cr, not_terminated, scan_rule_def,
}
use exp.Bootstrap.Scanner.Progress.{
  size, Sync, one_unless, read-Reads, one_unless-le, read-Sync, read-le, read-lt, read_to-lt,
}

-- Less is left to read than `n`.
abbrev pub Shrunk : ℕ → Scanner → Type 0
Shrunk n s = Sync s × (size s < n)

module _ (host : Host) where
  letter-at_end : (r : Rune) → (is_letter host r || is_digit host r) ≡ true → at_end r ≡ false
  unfolding is_letter is_digit
  letter-at_end none h = cc
  letter-at_end (some r) h = refl

  ident_round-Good :
      (n : ℕ) (s : Scanner)
      → Sync s
      → size s + one_unless (is_letter host s.cur || is_digit host s.cur) ≤ n
      → Good (Shrunk n) size (Shrunk n) (size s) (ident_round host s)
  unfolding write
  ident_round-Good n s h b =
      let r = read-Reads (write host s) h in
      if-Good (Shrunk n) size (Shrunk n) (size s) (is_letter host s.cur || is_digit host s.cur) _ _
        (λ e.
          let q = ap one_unless (letter-at_end s.cur e) in
          let q' = ap one_unless e in ((r.sync, omega arith), omega arith))
        (λ e. let q = ap one_unless e in (h, omega arith))

  pub scan_identifier-Ends :
      (f : ℕ) (s : Scanner)
      → Sync s
      → is_letter host s.cur ≡ true
      → size s < f
      → Ends (Shrunk (size s)) (scan_identifier host f s)
  unfolding scan_identifier
  scan_identifier-Ends f s h e lt =
      let q : one_unless (is_letter host s.cur || is_digit host s.cur) ≡ 0 = rw e refl in
      repeat-Ends (Shrunk (size s)) size (Shrunk (size s)) (ident_round host)
        (λ s' p.
          ident_round-Good (size s) s' p.0
            (omega (arith, one_unless-le (is_letter host s'.cur || is_digit host s'.cur))))
        f (reset s) lt (ident_round-Good (size s) (reset s) h (omega arith))

  -- The rounds of a loop whose state is a scanner and a value of another type.
  abbrev pub GoodPair : {X A : Type 0} → ℕ → (A → Type 0) → Scanner → Round (X × Scanner) A → Type 0
  GoodPair n Q s r = Good (λ t. Shrunk n t.1) (λ t. size t.1) Q (size s) r

  pub if-GoodPair :
      {X A : Type 0} (n : ℕ) (Q : A → Type 0) (s : Scanner) (b : Bool) (x y : Round (X × Scanner) A)
      → (b ≡ true → GoodPair n Q s x)
      → (b ≡ false → GoodPair n Q s y)
      → GoodPair n Q s (if b then x else y)
  if-GoodPair n Q s b x y hx hy = if-Good (λ t. Shrunk n t.1) (λ t. size t.1) Q (size s) b x y hx hy

  pub read-Shrunk : (n : ℕ) (s : Scanner) → Shrunk n s → Shrunk n (read s)
  read-Shrunk n s (h, lt) = let le = read-le s h in (read-Sync s h, omega arith)

  pub suffix-Shrunk : (n : ℕ) (s : Scanner) → Shrunk n s → Shrunk n (suffix host s)
  unfolding write
  suffix-Shrunk n s h = elim (Bool-cases (at_rune 105 s.cur)) [
    | inl e ↦ rw e (read-Shrunk n (write host s) h)
    | inr e ↦ rw e h
  ]

  unclosed-Shrunk :
      (n : ℕ) (multiline : Bool) (s : Scanner)
      → Shrunk n s
      → Shrunk n (if multiline then not_terminated host mlcomment s else (lcomment, s)).1
  unfolding errorf errorpf
  unclosed-Shrunk n true s h = h
  unclosed-Shrunk n false s h = h

  comment_round-Good :
      (n : ℕ) (multiline closing : Bool) (s : Scanner)
      → Shrunk n s
      → GoodPair n (λ r. Shrunk n r.1) s (comment_round host multiline (closing, s))
  unfolding write
  comment_round-Good n multiline closing s h =
      let s₁ = read (write host s) in
      let h₁ = read-Shrunk n (write host s) h in
      let branch = if-GoodPair n (λ (r : Tid × Scanner). Shrunk n r.1) s in
      branch (at_end s₁.cur) _ _ (λ e. unclosed-Shrunk n multiline s₁ h₁)
        (λ e.
          let less = read_to-lt (write host s) h.0 e in
          branch (at_rune 10 s₁.cur && not multiline) _ _ (λ _. h₁)
            (λ _.
              branch (at_rune 42 s₁.cur && multiline) _ _ (λ _. (h₁, less))
                (λ _.
                  branch (at_rune 47 s₁.cur && closing) _ _ (λ _. read-Shrunk n (write host s₁) h₁)
                    (λ _. (h₁, less)))))

  pub scan_comment-Ends :
      (f n : ℕ) (s : Scanner)
      → Shrunk n s
      → size s < f
      → Ends (λ r. Shrunk n r.1) (scan_comment host f s)
  unfolding scan_comment errorf errorpf
  scan_comment-Ends f n s h lt = elim (Bool-cases (at_end s.cur || at_rune 10 s.cur)) [
    | inl e ↦ rw e (not_terminated host lcomment s₀, refl, h)
    | inr e ↦ rw e (
        repeat-Ends (λ t. Shrunk n t.1) (λ t. size t.1) (λ r. Shrunk n r.1)
          (comment_round host (at_rune 42 s.cur))
          (λ t p. comment_round-Good n (at_rune 42 s.cur) t.0 t.1 p) f (false, s₀) lt
          (comment_round-Good n (at_rune 42 s.cur) false s₀ h))
  ]
    where
      s₀ : Scanner
      s₀ = record s { tok = host.encode_rune (some 47) }

  code_round-Good :
      (n depth : ℕ) (s : Scanner)
      → Sync s
      → size (read s) < n
      → GoodPair n (Shrunk n) s (code_round host (depth, s))
  unfolding write errorf errorpf
  code_round-Good n depth s h lt =
      let s₁ = write host (read s) in
      let h₁ : Shrunk n s₁ = (read-Sync s h, lt) in
      let branch = if-GoodPair n (Shrunk n) s in
      branch (at_end s₁.cur) _ _ (λ e. h₁)
        (λ e.
          let less = read_to-lt s h e in
          branch (at_rune 123 s₁.cur) _ _ (λ _. (h₁, less))
            (λ _.
              branch (at_rune 125 s₁.cur) _ _
                (λ _. branch (depth - 1 == 0) _ _ (λ _. read-Shrunk n s₁ h₁) (λ _. (h₁, less)))
                (λ _. (h₁, less))))

  pub scan_code-Ends :
      (f : ℕ) (s : Scanner)
      → Sync s
      → at_end s.cur ≡ false
      → size s < f
      → Ends (Shrunk (size s)) (scan_code host f s)
  unfolding scan_code write
  scan_code-Ends f s h e lt =
      repeat-Ends (λ t. Shrunk (size s) t.1) (λ t. size t.1) (Shrunk (size s)) (code_round host)
        (λ t p. let le = read-le t.1 p.0 in code_round-Good (size s) t.0 t.1 p.0 (omega arith)) f
        (1, write host (reset s)) lt
        (code_round-Good (size s) 1 (write host (reset s)) h (read-lt (write host (reset s)) h e))

  raw_round-Good :
      (n : ℕ) (has_cr : Bool) (s : Scanner)
      → Sync s
      → size (read s) < n
      → GoodPair n (λ (r : Bool × Scanner). Shrunk n r.1) s (raw_round host (has_cr, s))
  unfolding write errorf errorpf
  raw_round-Good n has_cr s h lt =
      let s₁ = read s in
      let h₁ : Shrunk n s₁ = (read-Sync s h, lt) in
      let branch = if-GoodPair n (λ (r : Bool × Scanner). Shrunk n r.1) s in
      branch (at_end s₁.cur) _ _ (λ e. h₁)
        (λ e.
          branch (at_rune 96 s₁.cur) _ _
            (λ _. suffix-Shrunk n (read (write host s₁)) (read-Shrunk n (write host s₁) h₁))
            (λ _. (h₁, read_to-lt s h e)))

  pub scan_raw_string-Ends :
      (f : ℕ) (s : Scanner)
      → Sync s
      → at_end s.cur ≡ false
      → size s < f
      → Ends (λ r. Shrunk (size s) r.1) (scan_raw_string host f s)
  unfolding scan_raw_string write
  scan_raw_string-Ends f s h e lt =
      let (r, q, done) =
        repeat-Ends (λ t. Shrunk (size s) t.1) (λ t. size t.1)
          (λ (r : Bool × Scanner). Shrunk (size s) r.1) (raw_round host)
          (λ t p. let le = read-le t.1 p.0 in raw_round-Good (size s) t.0 t.1 p.0 (omega arith)) f
          (false, write host (reset s)) lt
          (raw_round-Good (size s) false (write host (reset s)) h
            (read-lt (write host (reset s)) h e)) in
      ((if r.0 then strip_cr host r.1.tok else r.1.tok, r.1), ap (stripped host) q, done)

  if-Shrunk :
      (n : ℕ) (b : Bool) (s t : Scanner) → Shrunk n s → Shrunk n t → Shrunk n (if b then s else t)
  if-Shrunk n true s t hs ht = hs
  if-Shrunk n false s t hs ht = ht

  after_less-Shrunk : (n : ℕ) (s : Scanner) → Shrunk n s → Shrunk n (after_less host s)
  unfolding write errorf errorpf
  after_less-Shrunk n s h =
      let s₁ = if at_end s.cur then s else write host s in
      let h₁ = if-Shrunk n (at_end s.cur) s (write host s) h h in
      let s₂ =
        if at_rune 45 s.cur then s₁ else errorf (codes "rule definition not terminated") s₁ in
      read-Shrunk n s₂ (if-Shrunk n (at_rune 45 s.cur) s₁ _ h₁ h₁)

  pub scan_rule_def-Shrunk :
      (s : Scanner) → Sync s → at_end s.cur ≡ false → Shrunk (size s) (scan_rule_def host s)
  unfolding scan_rule_def write
  scan_rule_def-Shrunk s h e =
      let s₁ = read (write host (reset s)) in
      let h₁ : Shrunk (size s) s₁ =
        (read-Sync (write host (reset s)) h, read-lt (write host (reset s)) h e) in
      if-Shrunk (size s) (at_rune 60 s.cur) (after_less host s₁) s₁
        (after_less-Shrunk (size s) s₁ h₁) h₁
