-- ===== src/Lexer/Scan/Unread.antt =====
-- parser/lexer/lex.go: what a call of `Back` unreads.
use exp.Base.{ℕ, ◌≡◌, refl, ◌∙◌, ap, false, none, some, List, ◌∷◌, Text}
use exp.Lexer.Scan.{Rune, Lexer, no_rune, next, back}
use exp.Lexer.Scan.Positions.{next-reads, next-keeps}

module _ (encode : Rune → Text) where
  -- The state behind a call of `Back` outside of a token.
  abbrev pub unread : Lexer → Lexer
  unread l = record l { cur = l.pv; cpos = l.ppos; pv = none }

  back-unread :
      (l : Lexer) (c : ℕ) → l.pv ≡ some c → l.intok ≡ false → back encode l ≡ some (unread l)
  unfolding back
  back-unread l c e h =
      let same : no_rune encode l.pv l ≡ l = ap (λ r. no_rune encode r l) e in rw same (rw h refl)

  -- Outside of a token and with a current rune, `Back` after a `Next` that succeeds restores the rune
  -- and the position, but a further `Next`, if there is one more rune to read, reads the rune that
  -- follows the unread one: that rune is lost.
  pub back-loses_rune :
      (c rn w rn' w' : ℕ) (rs : List (ℕ × ℕ)) (l : Lexer)
      → l.eof ≡ false
      → l.intok ≡ false
      → l.cur ≡ some c
      → l.source ≡ (rn, w) ∷ (rn', w') ∷ rs
      → (l' : Lexer) × (back encode (next encode l).0 ≡ some l')
        × (l'.cur ≡ l.cur)
        × (l'.cpos ≡ l.cpos)
        × ((next encode l').0.cur ≡ some rn')
  back-loses_rune c rn w rn' w' rs l e t u h =
      let read = next-reads encode rn w ((rn', w') ∷ rs) l e h in
      let kept = next-keeps encode rn w ((rn', w') ∷ rs) l e h in
      let l' = unread (next encode l).0 in
      let again = next-reads encode rn' w' rs l' read.0 read.1 in
      (l', back-unread (next encode l).0 c (kept.0 ∙ u) (kept.2 ∙ t), kept.0, kept.1, again.3)
