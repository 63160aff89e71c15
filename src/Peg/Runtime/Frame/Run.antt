-- ===== src/Peg/Runtime/Frame/Run.antt =====
-- peg/builder/static_code.go: what `parseExpr` and `parseRule` keep, for every grammar and input.
use exp.Base.{ℕ, zero, suc, ◌≡◌, refl, sym, ◌∙◌, ap, Bool, false, List, ◌∷◌, Text, drop}
use exp.Peg.Runtime.Syntax
use exp.Peg.Runtime.Syntax.{Expr, Exprs, Rule}
use exp.Peg.Runtime.State.{Value, ArgMap, Parser, Env, DecodesUtf8}
use exp.Peg.Runtime.Matchers.{Outcome, ended, panicked}
use exp.Peg.Runtime.Engine.{dispatch, parse_expr}
use exp.Peg.Runtime.Frame.{offset_of, Located, Follows, Framed, WellBuilt, AllBuilt, Ready, Post}
use exp.Peg.Runtime.Frame.Runes.{any-Post, class-Post, lit-Post}
use exp.Peg.Runtime.Frame.Containers.{
  Keeps, and-Post, not-Post, choice-Post, seq-Post, zero_or_more-Post, one_or_more-Post,
  zero_or_one-Post,
}
use exp.Peg.Runtime.Frame.Code.{and_code-Post, not_code-Post, action-Post}
use exp.Peg.Runtime.Frame.Rules.{labeled-Post, rule_ref-Post}

module _ (env : Env) (d : DecodesUtf8 env) (Permitted : Type 0) where
  -- The knot: every expression keeps the frame, at every fuel.
  pub parse_expr-Keeps : (fuel : ℕ) → Keeps env Permitted (parse_expr env fuel)
  unfolding parse_expr
  parse_expr-Keeps zero e p b r = tt
  parse_expr-Keeps (suc f) e p b r = dispatched e p b r (parse_expr env f) (parse_expr-Keeps f)
    where
      dispatched :
          (e : Expr) (p : Parser)
          → WellBuilt env Permitted e
          → Ready env Permitted p
          → (rec : Expr → Parser → Outcome) → Keeps env Permitted rec
          → Post env Permitted p (dispatch env rec f e p)
      dispatched (Syntax.action_expr pos e run) p b r rec k =
          action-Post env Permitted rec k e run p b.0 b.1 r
      dispatched (Syntax.and_code_expr pos run) p b r rec k = and_code-Post env Permitted run p b r
      dispatched (Syntax.and_expr pos e) p b r rec k = and-Post env Permitted rec k e p b r
      dispatched (Syntax.any_matcher pos) p b r rec k = any-Post env d Permitted p r.place
      dispatched (Syntax.char_class_matcher chr) p b r rec k =
          class-Post env d Permitted chr p b r.place
      dispatched (Syntax.choice_expr pos es) p b r rec k = choice-Post env Permitted rec k es p b r
      dispatched (Syntax.labeled_expr pos label e) p b r rec k =
          labeled-Post env Permitted rec k label e p b r
      dispatched (Syntax.lit_matcher lit) p b r rec k = lit-Post env d Permitted lit p r.place
      dispatched (Syntax.not_code_expr pos run) p b r rec k = not_code-Post env Permitted run p b r
      dispatched (Syntax.not_expr pos e) p b r rec k = not-Post env Permitted rec k e p b r
      dispatched (Syntax.one_or_more_expr pos e) p b r rec k =
          one_or_more-Post env Permitted rec k e f p b r
      dispatched (Syntax.rule_ref_expr pos name) p b r rec k =
          rule_ref-Post env Permitted rec k name p pos b r
      dispatched (Syntax.seq_expr pos es) p b r rec k = seq-Post env Permitted rec k es p b r
      dispatched (Syntax.zero_or_more_expr pos e) p b r rec k =
          zero_or_more-Post env Permitted rec k e f p b r
      dispatched (Syntax.zero_or_one_expr pos e) p b r rec k =
          zero_or_one-Post env Permitted rec k e p b r
      dispatched (Syntax.unknown t) p b r rec k = b

-- With every panic permitted, every expression is well built.
module _ (env : Env) where
  mutual
    permissive : (e : Expr) → WellBuilt env Unit e
    permissive (Syntax.action_expr pos e run) = (permissive e, λ cur args t h. tt)
    permissive (Syntax.and_code_expr pos run) = λ cur args t h. tt
    permissive (Syntax.and_expr pos e) = permissive e
    permissive (Syntax.any_matcher pos) = tt
    permissive (Syntax.char_class_matcher chr) = λ cur h. tt
    permissive (Syntax.choice_expr pos es) = permissive_all es
    permissive (Syntax.labeled_expr pos label e) = permissive e
    permissive (Syntax.lit_matcher lit) = tt
    permissive (Syntax.not_code_expr pos run) = λ cur args t h. tt
    permissive (Syntax.not_expr pos e) = permissive e
    permissive (Syntax.one_or_more_expr pos e) = permissive e
    permissive (Syntax.rule_ref_expr pos name) = λ h. tt
    permissive (Syntax.seq_expr pos es) = permissive_all es
    permissive (Syntax.zero_or_more_expr pos e) = permissive e
    permissive (Syntax.zero_or_one_expr pos e) = permissive e
    permissive (Syntax.unknown t) = tt

    permissive_all : (es : Exprs) → AllBuilt env Unit es
    permissive_all Syntax.end = tt
    permissive_all (Syntax.more e es) = (permissive e, permissive_all es)

  ready :
      (p : Parser) {m : ArgMap} {ms : List ArgMap}
      → Located env p
      → p.vstack.live ≡ m ∷ ms
      → Ready env Unit p
  ready p {m} {ms} l e = record {
    place = l;
    args = (m, ms, e);
    built = λ name rule h. permissive rule.expr;
  }

  module _ (d : DecodesUtf8 env) (fuel : ℕ) (expr : Expr) (p p' : Parser) (v : Value) {m : ArgMap}
      {ms : List ArgMap} (l : Located env p) (framed : p.vstack.live ≡ m ∷ ms) where
    followed :
        (ok : Bool)
        → parse_expr env fuel expr p ≡ ended v ok p'
        → Follows env p p' × (ok ≡ false → offset_of p' ≡ offset_of p)
    followed ok h =
        rw h at (parse_expr-Keeps env d Unit fuel expr p (permissive expr) (ready p l framed))

    -- With runes decoded as `utf8.DecodeRune` documents it, and whatever an expression and the
    -- code blocks in it are: if `parseExpr` returns from a place in the input, with an argument
    -- map on the stack, it has kept the input, the rules, the stack of rules, the maps below the
    -- top one and the errors noted before; its place is in the input, not before the old one, and
    -- holds the rune that the input has there.
    pub parse_expr-Framed :
        (ok : Bool) → parse_expr env fuel expr p ≡ ended v ok p' → Framed env p p'
    parse_expr-Framed ok h =
        let f = (followed ok h).0 in
        record {
          input_same = f.input_kept;
          rules_same = f.rules_kept;
          rstack_same = f.rstack_kept;
          live_same = f.below_kept;
          forward = f.onward;
          inside = f.located.in_input;
          at_rune = f.located.decoded;
          errs_grow = f.appended;
        }

    -- With runes decoded as `utf8.DecodeRune` documents it, an expression that does not match
    -- leaves the parser at the offset, the rune and the width at which it began, from a place in
    -- the input with an argument map on the stack.
    pub no_match-restores :
        parse_expr env fuel expr p ≡ ended v false p'
        → (p'.pt.position.offset ≡ p.pt.position.offset) × (p'.pt.rn ≡ p.pt.rn) × (p'.pt.w ≡ p.pt.w)
    no_match-restores h =
        let (f, still) = followed false h in
        let same = still refl in
        let at =
          ap env.decode_rune
            (ap (λ t. drop t p'.input) same ∙ ap (λ t. drop (offset_of p) t) f.input_kept) in
        let rune = sym f.located.decoded ∙ at ∙ l.decoded in
        (same, ap (λ (t : ℕ × ℕ). t.0) rune, ap (λ (t : ℕ × ℕ). t.1) rune)

  -- A well-built expression does not panic, whatever the input: if runes are decoded as
  -- `utf8.DecodeRune` documents it, each reference in the expression and in the rules has a name,
  -- class bounds stand in pairs, no node is of an unknown type, and no code block panics, then
  -- `parseExpr`, from a place in the input with an argument map on the stack, does not panic: it
  -- neither pops an empty stack nor slices the input out of its range, in a read or for the text of
  -- a code block.
  pub parse_expr-no_panic :
      (fuel : ℕ) (expr : Expr) (p p' : Parser) (t : Text)
      → DecodesUtf8 env
      → WellBuilt env ⊥ expr
      → Ready env ⊥ p
      → ¬ (parse_expr env fuel expr p ≡ panicked t p')
  parse_expr-no_panic fuel expr p p' t d b r h = rw h at (parse_expr-Keeps env d ⊥ fuel expr p b r)
