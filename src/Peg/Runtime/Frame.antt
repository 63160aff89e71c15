-- ===== src/Peg/Runtime/Frame.antt =====
-- peg/builder/static_code.go: what a call of a `parse…` method keeps of the parser, as a relation
-- between the state before it and the state after it, and the rules to compose such calls.
mod Compose
pub mod Moves
mod Runes
mod Stack
mod Containers
mod Code
mod Rules
pub mod Run
use exp.Base.{
  ℕ, zero, suc, ◌+◌, ◌≤◌, ◌≡◌, refl, sym, ◌∙◌, ap, Bool, true, false, none, some, List, [], ◌∷◌,
  ◌++◌, Text, append_assoc, append-nil, text_eq, arith, length, length-drop, drop,
}
use exp.Peg.Runtime.Syntax
use exp.Peg.Runtime.Syntax.{CharClassMatcher, Expr, Exprs, Rule}
use exp.Peg.Runtime.Errors.{ErrList}
use exp.Peg.Runtime.State.{
  Value, ArgMap, Current, Parser, Ran, ran_panic, Env, DecodesUtf8, next_savepoint, read,
}
use exp.Peg.Runtime.Matchers.{
  Found, hit, miss, out_of_range, Outcome, ended, panicked, out_of_fuel, on_end, in_class,
}

-- The maps below the top are the same.
abbrev pub SameBelow : List ArgMap → List ArgMap → Type 0
SameBelow [] live = live ≡ []
SameBelow (m ∷ ms) live = (m' : ArgMap) × (live ≡ m' ∷ ms)

abbrev pub offset_of : Parser → ℕ
offset_of p = p.pt.position.offset

-- The rune at hand is the one that stands at the offset, which lies in the input.
pub record Located (env : Env) (p : Parser) : Type 0 where
  pub in_input : p.pt.position.offset ≤ length p.input
  pub decoded : env.decode_rune (drop p.pt.position.offset p.input) ≡ (p.pt.rn, p.pt.w)

pub record Follows (env : Env) (p p' : Parser) : Type 0 where
  pub input_kept : p'.input ≡ p.input
  pub filename_kept : p'.filename ≡ p.filename
  pub rules_kept : p'.rules ≡ p.rules
  pub rstack_kept : p'.rstack ≡ p.rstack
  pub below_kept : SameBelow p.vstack.live p'.vstack.live
  pub located : Located env p'
  pub onward : p.pt.position.offset ≤ p'.pt.position.offset
  pub appended : (new : ErrList) × (p'.errs ≡ p.errs ++ new)

-- An expression that panics only if `Permitted`: references have a name, class bounds stand in
-- pairs, no node has an unknown type, and code blocks return.
module _ (env : Env) (Permitted : Type 0) where
  abbrev pub CodeReturns {ℓ} : {A : Type ℓ} → (Current → ArgMap → Ran A) → Type ℓ
  CodeReturns code =
      (cur : Current) (args : ArgMap) (e : Text) → code cur args ≡ ran_panic e → Permitted

  abbrev mutual
    pub WellBuilt : Expr → Type 0
    WellBuilt (Syntax.action_expr pos e run) = WellBuilt e × CodeReturns (env.run_action run)
    WellBuilt (Syntax.and_code_expr pos run) = CodeReturns (env.run_pred run)
    WellBuilt (Syntax.and_expr pos e) = WellBuilt e
    WellBuilt (Syntax.any_matcher pos) = Unit
    WellBuilt (Syntax.char_class_matcher chr) =
        (cur : ℕ) → in_class env chr cur ≡ out_of_range → Permitted
    WellBuilt (Syntax.choice_expr pos es) = AllBuilt es
    WellBuilt (Syntax.labeled_expr pos label e) = WellBuilt e
    WellBuilt (Syntax.lit_matcher lit) = Unit
    WellBuilt (Syntax.not_code_expr pos run) = CodeReturns (env.run_pred run)
    WellBuilt (Syntax.not_expr pos e) = WellBuilt e
    WellBuilt (Syntax.one_or_more_expr pos e) = WellBuilt e
    WellBuilt (Syntax.rule_ref_expr pos name) = text_eq name [] ≡ true → Permitted
    WellBuilt (Syntax.seq_expr pos es) = AllBuilt es
    WellBuilt (Syntax.zero_or_more_expr pos e) = WellBuilt e
    WellBuilt (Syntax.zero_or_one_expr pos e) = WellBuilt e
    WellBuilt (Syntax.unknown t) = Permitted

    pub AllBuilt : Exprs → Type 0
    AllBuilt Syntax.end = Unit
    AllBuilt (Syntax.more e es) = WellBuilt e × AllBuilt es

  pub record Ready (p : Parser) : Type 0 where
    pub place : Located env p
    pub args : (m : ArgMap) × (ms : List ArgMap) × (p.vstack.live ≡ m ∷ ms)
    pub built : (name : Text) (rule : Rule) → p.rules name ≡ some rule → WellBuilt rule.expr

  -- What holds of the end of a call that began in `p`.
  abbrev pub Post : Parser → Outcome → Type 0
  Post p (ended v ok p') = Follows env p p' × (ok ≡ false → offset_of p' ≡ offset_of p)
  Post p (panicked e p') = Permitted
  Post p out_of_fuel = Unit

-- What every run keeps: the input, the rules, both stacks but for the labels of the top map, and
-- the errors already noted; and a run goes forward within the input.
pub record Framed (env : Env) (p p' : Parser) : Type 0 where
  pub input_same : p'.input ≡ p.input
  pub rules_same : p'.rules ≡ p.rules
  pub rstack_same : p'.rstack ≡ p.rstack
  pub live_same : SameBelow p.vstack.live p'.vstack.live
  pub forward : p.pt.position.offset ≤ p'.pt.position.offset
  pub inside : p'.pt.position.offset ≤ length p'.input
  pub at_rune : env.decode_rune (drop p'.pt.position.offset p'.input) ≡ (p'.pt.rn, p'.pt.w)
  pub errs_grow : (new : ErrList) × (p'.errs ≡ p.errs ++ new)
