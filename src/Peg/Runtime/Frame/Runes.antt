-- ===== src/Peg/Runtime/Frame/Runes.antt =====
-- peg/builder/static_code.go: what the matchers of runes keep.
use exp.Base.{ℕ, ◌≡◌, refl, Bool, true, false, List, [], ◌∷◌, ◌++◌, Text, if◌then◌else◌, ◌==◌}
use exp.Peg.Runtime.Syntax.{LitMatcher, CharClassMatcher}
use exp.Peg.Runtime.State.{Value, nil, str, Parser, Env, DecodesUtf8, rune_error, read}
use exp.Peg.Runtime.Matchers.{
  Found, hit, miss, out_of_range, Outcome, ended, in_class, parse_any_matcher, folded, class_result,
  parse_char_class_matcher, lit_loop, parse_lit_matcher, reading,
}
use exp.Peg.Runtime.Frame.{Located, Follows, Post}
use exp.Peg.Runtime.Frame.Compose.{Follows-refl, Follows-trans}
use exp.Peg.Runtime.Frame.Moves.{
  Located-fits, read-Follows, reading-All, restore-Follows, restore-offset,
}

module _ (env : Env) (Permitted : Type 0) where
  pub Post-if :
      (p : Parser) (b : Bool) (o o' : Outcome)
      → Post env Permitted p o
      → Post env Permitted p o'
      → Post env Permitted p (if b then o else o')
  Post-if p true o o' h h' = h
  Post-if p false o o' h h' = h'

module _ (env : Env) (d : DecodesUtf8 env) (Permitted : Type 0) where
  advance : (p : Parser) → Located env p → Follows env p (read env p)
  advance p l = read-Follows env p (Located-fits env d p l)

  stays : (v : Value) (p : Parser) → Located env p → Post env Permitted p (ended v false p)
  stays v p l = (Follows-refl p l, λ _. refl)

  matches :
      (v : Parser → Value) (p : Parser)
      → Located env p
      → Post env Permitted p (reading env p (λ q. ended (v q) true q))
  matches v p l =
      reading-All env (Post env Permitted p) p (λ q. ended (v q) true q) (Located-fits env d p l)
        (advance p l, λ e. cc)

  pub any-Post : (p : Parser) → Located env p → Post env Permitted p (parse_any_matcher env p)
  unfolding parse_any_matcher
  any-Post p l =
      Post-if env Permitted p (p.pt.rn == rune_error) _ _ (stays nil p l)
        (matches (λ q. str (env.encode_rune q.pt.rn)) p l)

  class_result-Post :
      (inverted : Bool) (cur : ℕ) (r : Found) (p : Parser)
      → (r ≡ out_of_range → Permitted)
      → Located env p
      → Post env Permitted p (class_result env inverted cur r p)
  unfolding class_result
  class_result-Post inverted cur hit p ranges l =
      Post-if env Permitted p inverted _ _ (stays nil p l)
        (matches (λ q. str (env.encode_rune cur)) p l)
  class_result-Post inverted cur miss p ranges l =
      Post-if env Permitted p inverted _ _ (matches (λ q. str (env.encode_rune cur)) p l)
        (stays nil p l)
  class_result-Post inverted cur out_of_range p ranges l = ranges refl

  pub class-Post :
      (chr : CharClassMatcher) (p : Parser)
      → ((cur : ℕ) → in_class env chr cur ≡ out_of_range → Permitted)
      → Located env p
      → Post env Permitted p (parse_char_class_matcher env chr p)
  unfolding parse_char_class_matcher
  class-Post chr p built l =
      class_result-Post chr.inverted _ (in_class env chr (folded env chr.ignore_case p.pt.rn)) p
        (built (folded env chr.ignore_case p.pt.rn)) l

  lit_loop-Post :
      (ignore_case : Bool) (p : Parser) (wants : List ℕ) (buf : Text) (q : Parser)
      → Located env p
      → Follows env p q
      → Post env Permitted p (lit_loop env ignore_case p.pt wants buf q)
  unfolding lit_loop
  lit_loop-Post ignore_case p [] buf q l f = (f, λ e. cc)
  lit_loop-Post ignore_case p (want ∷ wants) buf q l f =
      Post-if env Permitted p (folded env ignore_case q.pt.rn == want) _ _
        (reading-All env (Post env Permitted p) q
          (λ q'. lit_loop env ignore_case p.pt wants (buf ++ env.encode_rune q.pt.rn) q')
          (Located-fits env d q f.located)
          (lit_loop-Post ignore_case p wants _ (read env q) l
            (Follows-trans f (advance q f.located))))
        (restore-Follows env p q l f, λ _. restore-offset p.pt q)

  pub lit-Post :
      (lit : LitMatcher) (p : Parser)
      → Located env p
      → Post env Permitted p (parse_lit_matcher env lit p)
  unfolding parse_lit_matcher
  lit-Post lit p l = lit_loop-Post lit.ignore_case p lit.val [] p l (Follows-refl p l)
