-- ===== src/Peg/Runtime/Semantics/Leaves.antt =====
-- peg/builder/static_code.go: the matchers of runes and the predicates of code blocks against the relation.
use exp.Base.{
  ℕ, ◌≡◌, refl, sym, ◌∙◌, ap, Bool, true, false, not, Option, List, [], ◌∷◌, ◌++◌, Text, ◌==◌,
  if◌then◌else◌, if-All,
}
use exp.Peg.Runtime.Syntax
use exp.Peg.Runtime.Syntax.{Position, CharClassMatcher, LitMatcher, Expr, Exprs, Rule}
use exp.Peg.Runtime.State.{Value, nil, str, Parser, Env, DecodesUtf8, rune_error, read, add_err}
use exp.Peg.Runtime.Matchers.{
  Outcome, reading, Found, hit, miss, out_of_range, ended, in_class, class_result, folded, lit_loop,
  parse_any_matcher, parse_char_class_matcher,
}
use exp.Peg.Runtime.Frame.Moves.{Located-fits, reading-All}
use exp.Peg.Runtime.Engine.{note, parse_and_code_expr, parse_not_code_expr}
use exp.Peg.Runtime.Semantics
use exp.Peg.Runtime.Semantics.{
  rune_at, behind, literal_result, class_end, Parses, Repeats, ParsesAll, ParsesAny,
}
use exp.Peg.Runtime.Semantics.At.{
  At, Means, At-rune, At-read, At-restore, Means-running, At-note, At-add_err, Allows,
}

module _ (env : Env) (d : DecodesUtf8 env) (input : Text) (rules : Text → Option Rule) where
  -- A read in the input does not panic.
  Means-reading :
      (o : ℕ) (p : Parser) (k : Parser → Outcome) (R : Option ℕ → Type 0) (o₀ : ℕ)
      → At env d input rules o p
      → Means env d input rules o₀ R (k (read env p))
      → Means env d input rules o₀ R (reading env p k)
  Means-reading o p k R o₀ a m =
      reading-All env (Means env d input rules o₀ R) p k (Located-fits env d p a.located) m

  -- The leaves.
  pub any-Means :
      (pos : Position) (o : ℕ) (p : Parser)
      → At env d input rules o p
      → Means env d input rules o
          (Allows env d input rules (Syntax.any_matcher pos) o)
          (parse_any_matcher env p)
  unfolding parse_any_matcher
  any-Means pos o p a =
      if-All (Means env d input rules o (Allows env d input rules (Syntax.any_matcher pos) o))
        (p.pt.rn == rune_error) _ _
        (λ h. (
          a,
          Semantics.no_rune (ap (λ n. n == rune_error) (sym (At-rune env d input rules o p a)) ∙ h),
        ))
        (λ h.
          Means-reading o p (λ q. ended (str (env.encode_rune q.pt.rn)) true q)
            (Allows env d input rules (Syntax.any_matcher pos) o) o a
            (
              behind env input rules o,
              At-read env d input rules o p a,
              Semantics.any_rune
                  (ap (λ n. n == rune_error) (sym (At-rune env d input rules o p a)) ∙ h),
            ))

  pub end-Means :
      (b : Bool) (o : ℕ) (p : Parser) (v w : Value) (R : Option ℕ → Type 0)
      → At env d input rules o p
      → R (class_end env input rules b o)
      → Means env d input rules o R
          (if b then reading env p (λ q. ended v true q) else ended w false p)
  end-Means true o p v w R a h =
      Means-reading o p (λ q. ended v true q) R o a
        (behind env input rules o, At-read env d input rules o p a, h)
  end-Means false o p v w R a h = (a, h)

  pub not-Means :
      (b : Bool) (o : ℕ) (p : Parser) (v w : Value) (R : Option ℕ → Type 0)
      → At env d input rules o p
      → R (class_end env input rules (not b) o)
      → Means env d input rules o R
          (if b then ended w false p else reading env p (λ q. ended v true q))
  not-Means true o p v w R a h = (a, h)
  not-Means false o p v w R a h =
      Means-reading o p (λ q. ended v true q) R o a
        (behind env input rules o, At-read env d input rules o p a, h)

  pub class-Means :
      (chr : CharClassMatcher) (o : ℕ) (p : Parser)
      → At env d input rules o p
      → Means env d input rules o
          (Allows env d input rules (Syntax.char_class_matcher chr) o)
          (parse_char_class_matcher env chr p)
  unfolding parse_char_class_matcher class_result
  class-Means chr o p a = go (in_class env chr cur) refl
    where
      cur : ℕ
      cur = folded env chr.ignore_case p.pt.rn

      go :
          (r : Found)
          → in_class env chr cur ≡ r
          → Means env d input rules o
              (Allows env d input rules (Syntax.char_class_matcher chr) o)
              (class_result env chr.inverted cur r p)
      go hit h =
          not-Means chr.inverted o p (str (env.encode_rune cur)) nil
            (Allows env d input rules (Syntax.char_class_matcher chr) o) a
            (Semantics.class_has (
              ap (λ n. in_class env chr (folded env chr.ignore_case n))
                (sym (At-rune env d input rules o p a))
              ∙ h))
      go miss h =
          end-Means chr.inverted o p (str (env.encode_rune cur)) nil
            (Allows env d input rules (Syntax.char_class_matcher chr) o) a
            (Semantics.class_has_not (
              ap (λ n. in_class env chr (folded env chr.ignore_case n))
                (sym (At-rune env d input rules o p a))
              ∙ h))
      go out_of_range h = tt

  pub lit_loop-Means :
      (ignore : Bool) (wants : List ℕ) (buf : Text) (o o' : ℕ) (p q : Parser)
      (R : Option ℕ → Type 0)
      → At env d input rules o p
      → At env d input rules o' q
      → R (literal_result env input rules ignore wants o')
      → Means env d input rules o R (lit_loop env ignore p.pt wants buf q)
  unfolding lit_loop
  lit_loop-Means ignore [] buf o o' p q R a b h = (o', b, h)
  lit_loop-Means ignore (want ∷ wants) buf o o' p q R a b h =
      if-All (Means env d input rules o R) (folded env ignore q.pt.rn == want) _ _
        (λ e.
          Means-reading o' q
            (λ q'. lit_loop env ignore p.pt wants (buf ++ env.encode_rune q.pt.rn) q') R o b
            (lit_loop-Means ignore wants (buf ++ env.encode_rune q.pt.rn) o
              (behind env input rules o') p (read env q) R a (At-read env d input rules o' q b)
              (rw
                (
                  literal_result,
                  ap (λ n. folded env ignore n == want) (sym (At-rune env d input rules o' q b))
                      ∙ e,
                )
                at h)))
        (λ e. (
          At-restore env d input rules o o' p q a b,
          rw
              (
                literal_result,
                ap (λ n. folded env ignore n == want) (sym (At-rune env d input rules o' q b)) ∙ e,
              )
              at h,
        ))

  -- The predicates of code blocks; what they say is open.
  pub and_code-Means :
      (pos : Position) (run o : ℕ) (p : Parser)
      → At env d input rules o p
      → Means env d input rules o
          (Allows env d input rules (Syntax.and_code_expr pos run) o)
          (parse_and_code_expr env run p)
  unfolding parse_and_code_expr
  and_code-Means pos run o p a =
      Means-running env d input rules (env.run_pred run) o o R p
        (λ ok e u. ended nil ok (note (add_err env) e u)) a
        λ ok e u c. go ok (note (add_err env) e u) (
          At-note env d input rules o (add_err env) e u c λ t. At-add_err env d input rules o t u c)
    where
      R : Option ℕ → Type 0
      R = Allows env d input rules (Syntax.and_code_expr pos run) o

      go :
          (ok : Bool) (u : Parser)
          → At env d input rules o u
          → Means env d input rules o R (ended nil ok u)
      go true u c = (o, c, Semantics.and_holds)
      go false u c = (c, Semantics.and_fails)

  pub not_code-Means :
      (pos : Position) (run o : ℕ) (p : Parser)
      → At env d input rules o p
      → Means env d input rules o
          (Allows env d input rules (Syntax.not_code_expr pos run) o)
          (parse_not_code_expr env run p)
  unfolding parse_not_code_expr
  not_code-Means pos run o p a =
      Means-running env d input rules (env.run_pred run) o o R p
        (λ ok e u. ended nil (not ok) (note (add_err env) e u)) a
        λ ok e u c. go ok (note (add_err env) e u) (
          At-note env d input rules o (add_err env) e u c λ t. At-add_err env d input rules o t u c)
    where
      R : Option ℕ → Type 0
      R = Allows env d input rules (Syntax.not_code_expr pos run) o

      go :
          (ok : Bool) (u : Parser)
          → At env d input rules o u
          → Means env d input rules o R (ended nil (not ok) u)
      go false u c = (o, c, Semantics.not_holds)
      go true u c = (c, Semantics.not_fails)
