-- ===== src/Peg/Runtime/Literals.antt =====
-- peg/builder/static_code.go: a literal matches exactly where its runes stand next in the input.
use mathlib.Core.Path.{ap₂}
use exp.Base.{
  ℕ, zero, suc, ◌≡◌, ◌≢◌, refl, ◌∙◌, ap, Bool, true, false, ◌==◌, ==_iff, List, [], ◌∷◌, ◌++◌,
  append_assoc, append-nil, Text, length, Bool-cases, inl, inr,
}
use exp.Peg.Runtime.Syntax.{LitMatcher}
use exp.Peg.Runtime.State.{nil, str, Savepoint, Parser, Env, DecodesUtf8, read, restore, save}
use exp.Peg.Runtime.Matchers.{ended, folded, lit_loop, parse_lit_matcher}
use exp.Peg.Runtime.Frame.{Located}
use exp.Peg.Runtime.Frame.Moves.{restore-offset, Located-fits, read-Follows, reading-eq}

module _ (env : Env) (d : DecodesUtf8 env) where
  -- The parser behind the next `n` runes, those runes as the literal compares them, and their text.
  abbrev pub after : ℕ → Parser → Parser
  after zero p = p
  after (suc n) p = after n (read env p)

  abbrev pub upcoming : Bool → ℕ → Parser → List ℕ
  upcoming ignore_case zero p = []
  upcoming ignore_case (suc n) p =
      folded env ignore_case p.pt.rn ∷ upcoming ignore_case n (read env p)

  abbrev pub spelled : ℕ → Parser → Text
  spelled zero p = []
  spelled (suc n) p = env.encode_rune p.pt.rn ++ spelled n (read env p)

  next-Located : (p : Parser) → Located env p → Located env (read env p)
  next-Located p l = (read-Follows env p (Located-fits env d p l)).located

  lit_loop-match :
      (ignore_case : Bool) (pt : Savepoint) (wants : List ℕ) (buf : Text) (p : Parser)
      → Located env p
      → upcoming ignore_case (length wants) p ≡ wants
      → lit_loop env ignore_case pt wants buf p
        ≡ ended (str (buf ++ spelled (length wants) p)) true (after (length wants) p)
  unfolding lit_loop
  lit_loop-match ignore_case pt [] buf p l h = rw append-nil
  lit_loop-match ignore_case pt (want ∷ wants) buf p l h =
      let head : folded env ignore_case p.pt.rn ≡ want = cc in
      let tail : upcoming ignore_case (length wants) (read env p) ≡ wants = cc in
      rw ((==_iff _ want).1 head) (
        reading-eq env p (λ q. lit_loop env ignore_case pt wants (buf ++ env.encode_rune p.pt.rn) q)
          (Located-fits env d p l)
        ∙ lit_loop-match ignore_case pt wants (buf ++ env.encode_rune p.pt.rn) (read env p)
            (next-Located p l) tail
        ∙ ap (λ t. ended (str t) true (after (length wants) (read env p)))
            (append_assoc buf (env.encode_rune p.pt.rn) (spelled (length wants) (read env p))))

  lit_loop-no_match :
      (ignore_case : Bool) (pt : Savepoint) (wants : List ℕ) (buf : Text) (p : Parser)
      → Located env p
      → upcoming ignore_case (length wants) p ≢ wants
      → (q : Parser) × (lit_loop env ignore_case pt wants buf p ≡ ended nil false (restore pt q))
  unfolding lit_loop
  lit_loop-no_match ignore_case pt [] buf p l h = absurd (h refl)
  lit_loop-no_match ignore_case pt (want ∷ wants) buf p l h =
      elim (Bool-cases (folded env ignore_case p.pt.rn == want)) [
        | inl head ↦
            let (q, e) =
              lit_loop-no_match ignore_case pt wants (buf ++ env.encode_rune p.pt.rn) (read env p)
                (next-Located p l) λ tail. h (ap₂ ◌∷◌ ((==_iff _ want).0 head) tail) in
            (
              q,
              rw head (
                  reading-eq env p
                    (λ q. lit_loop env ignore_case pt wants (buf ++ env.encode_rune p.pt.rn) q)
                    (Located-fits env d p l)
                  ∙ e),
            )
        | inr other ↦ (p, rw other)
      ]

  -- With runes decoded as `utf8.DecodeRune` documents it, from a place in the input: where the next
  -- runes, in lower case if the literal ignores case, are those of the literal, it matches: its value is the text of these runes as they were read, and the parser is behind
  -- them.
  pub parse_lit_matcher-match :
      (lit : LitMatcher) (p : Parser)
      → Located env p
      → upcoming lit.ignore_case (length lit.val) p ≡ lit.val
      → parse_lit_matcher env lit p
        ≡ ended (str (spelled (length lit.val) p)) true (after (length lit.val) p)
  unfolding parse_lit_matcher save
  parse_lit_matcher-match lit p l h = lit_loop-match lit.ignore_case p.pt lit.val [] p l h

  -- With runes decoded as `utf8.DecodeRune` documents it, from a place in the input: where the next
  -- runes, in lower case if the literal ignores case, are not those of the literal, it does not match and the parser is at the offset where it began.
  pub parse_lit_matcher-no_match :
      (lit : LitMatcher) (p : Parser)
      → Located env p
      → upcoming lit.ignore_case (length lit.val) p ≢ lit.val
      → (q : Parser) × (parse_lit_matcher env lit p ≡ ended nil false q)
        × (q.pt.position.offset ≡ p.pt.position.offset)
  unfolding parse_lit_matcher save
  parse_lit_matcher-no_match lit p l h =
      let (q, e) = lit_loop-no_match lit.ignore_case p.pt lit.val [] p l h in
      (restore p.pt q, e, restore-offset p.pt q)
