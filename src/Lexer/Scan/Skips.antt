-- ===== src/Lexer/Scan/Skips.antt =====
-- parser/lexer/lex.go: the loops that skip runes end.
use exp.Base.{
  ℕ, zero, suc, ◌<◌, ◌≡◌, refl, ap, Bool, true, false, none, List, [], ◌∷◌, Text, if◌then◌else◌,
  arith, length, ◌⊎◌, inl, inr, Bool-cases, sym,
}
use exp.Lexer.Scan.{
  Rune, Lexer, Ending, Looped, stopped, going_on, fatal_error, noting, eof_error, read_error, next,
  next_in, skip_while, skip_until,
}

noting-eof : (e : Ending) (l : Lexer) → (noting e l).eof ≡ l.eof
noting-eof eof_error l = refl
noting-eof (read_error e) l = refl

fatal_error-eof : (e : Ending) (l : Lexer) → (fatal_error e l).eof ≡ true
unfolding fatal_error
fatal_error-eof e l = noting-eof e (record l { cur = none; eof = true })

module _ (encode : Rune → Text) where
  -- One call of `Next` reads a rune of the source, or it reports the end.
  abbrev pub Advances : Lexer → Lexer × Bool → Type 0
  Advances l r =
      ((r.1 ≡ true) × (suc (length r.0.source) ≡ length l.source))
      ⊎ ((r.1 ≡ false) × (r.0.eof ≡ true))

  next_in-Advances :
      (rs : List (ℕ × ℕ)) (l : Lexer) → l.source ≡ rs → Advances l (next_in encode rs l)
  next_in-Advances [] l h = inr (refl, fatal_error-eof l.ending l)
  next_in-Advances ((rn, w) ∷ rs) l h = inl (refl, ap (λ s. length s) (sym h))

  next-Advances : (l : Lexer) → Advances l (next encode l)
  unfolding next
  next-Advances l = elim (Bool-cases l.eof) [
    | inl e ↦ rw (ap (λ b. if b then (l, false) else next_in encode l.source l) e) (inr (refl, e))
    | inr e ↦
        rw (ap (λ b. if b then (l, false) else next_in encode l.source l) e)
          (next_in-Advances l.source l refl)
  ]

  -- The loop has stopped at a rune on which the test is `stop`, or at the end of the source.
  abbrev pub StopsAt : (Rune → Bool) → Bool → Looped encode → Type 0
  StopsAt p stop r =
      (l : Lexer) × (((r ≡ stopped l true) × (p l.cur ≡ stop))
        ⊎ ((r ≡ stopped l false) × (l.eof ≡ true)))

  going_on-StopsAt :
      (p : Rune → Bool) (stop : Bool) (f : ℕ) (k : Lexer → Looped encode) (l : Lexer)
      (r : Lexer × Bool)
      → length l.source < suc f
      → Advances l r
      → ((l' : Lexer) → length l'.source < f → StopsAt p stop (k l'))
      → StopsAt p stop (going_on encode r k)
  going_on-StopsAt p stop f k l (l', true) m (inl a) more = more l' (let s = a.1 in omega arith)
  going_on-StopsAt p stop f k l (l', false) m (inl a) more = cc
  going_on-StopsAt p stop f k l (l', true) m (inr a) more = cc
  going_on-StopsAt p stop f k l (l', false) m (inr a) more = (l', inr (refl, a.1))

  -- `SkipWhile` ends within as many rounds as the source has runes and one more: at a rune that the
  -- predicate rejects, or with the end of the source reported.
  pub skip_while-StopsAt :
      (f : ℕ) (p : Rune → Bool) (l : Lexer)
      → length l.source < f
      → StopsAt p false (skip_while encode f p l)
  unfolding skip_while
  skip_while-StopsAt zero p l m = absurd (omega arith)
  skip_while-StopsAt (suc f) p l m = elim (Bool-cases (p l.cur)) [
    | inl e ↦
        rw (skip_while, e)
          (going_on-StopsAt p false f (λ l'. skip_while encode f p l') l (next encode l) m
            (next-Advances l) (λ l' m'. skip_while-StopsAt f p l' m'))
    | inr e ↦ rw (skip_while, e) (l, inl (refl, e))
  ]

  -- `SkipUntil` ends within as many rounds as the source has runes and one more: at a rune that
  -- the predicate accepts, or with the end of the source reported.
  pub skip_until-StopsAt :
      (f : ℕ) (p : Rune → Bool) (l : Lexer)
      → length l.source < f
      → StopsAt p true (skip_until encode f p l)
  unfolding skip_until
  skip_until-StopsAt zero p l m = absurd (omega arith)
  skip_until-StopsAt (suc f) p l m = elim (Bool-cases (p l.cur)) [
    | inl e ↦ rw (skip_until, e) (l, inl (refl, e))
    | inr e ↦
        rw (skip_until, e)
          (going_on-StopsAt p true f (λ l'. skip_until encode f p l') l (next encode l) m
            (next-Advances l) (λ l' m'. skip_until-StopsAt f p l' m'))
  ]
