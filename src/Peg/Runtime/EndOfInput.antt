-- ===== src/Peg/Runtime/EndOfInput.antt =====
-- peg/builder/static_code.go: what the matchers of runes do at the end of the input, and the value
-- of the any matcher.
use exp.Base.{
  ℕ, zero, suc, ◌+◌, ◌≤◌, ◌≡◌, ◌≢◌, refl, sym, ◌∙◌, ap, Bool, true, ◌==◌, ==_iff, [], ◌∷◌, Text,
  arith, length, drop, Bool-cases, inl, inr,
}
use exp.Peg.Runtime.Syntax
use exp.Peg.Runtime.Syntax.{Position, CharClassMatcher, Expr}
use exp.Peg.Runtime.State.{
  Value, str, Values, no_vals, append_val, Savepoint, Parser, Env, DecodesUtf8, rune_error,
  next_savepoint, read,
}
use exp.Peg.Runtime.Matchers.{
  Found, miss, Outcome, ended, out_of_fuel, folded, in_class, class_result,
  parse_char_class_matcher, reading,
}
use exp.Peg.Runtime.Engine.{dispatch, parse_expr, rounds, stop_zero}
use exp.Peg.Runtime.Frame.{Located}
use exp.Peg.Runtime.Frame.Moves.{read-pt, reading-eq}

drop-all : (n : ℕ) (xs : Text) → length xs ≤ n → drop n xs ≡ []
drop-all zero [] h = refl
drop-all (suc n) [] h = refl
drop-all zero (x ∷ xs) h = absurd (omega arith)
drop-all (suc n) (x ∷ xs) h = drop-all n xs (omega arith)

-- The parser stands behind the last byte.
pub record AtEnd (p : Parser) : Type 0 where
  pub offset_end : p.pt.position.offset ≡ length p.input
  pub rune_end : p.pt.rn ≡ rune_error
  pub width_end : p.pt.w ≡ 0

module _ (env : Env) (d : DecodesUtf8 env) where
  pub Located-AtEnd : (p : Parser) → Located env p → p.pt.position.offset ≡ length p.input → AtEnd p
  Located-AtEnd p l e =
      let rune =
        sym l.decoded ∙ ap env.decode_rune (drop-all _ p.input (omega arith)) ∙ d.decode_end in
      record {
        offset_end = e;
        rune_end = ap (λ (t : ℕ × ℕ). t.0) rune;
        width_end = ap (λ (t : ℕ × ℕ). t.1) rune;
      }

  read-AtEnd : (p : Parser) → AtEnd p → AtEnd (read env p)
  unfolding read next_savepoint
  read-AtEnd p e =
      let rune : env.decode_rune (drop (p.pt.position.offset + p.pt.w) p.input) ≡ (rune_error, 0) =
        ap env.decode_rune (drop-all _ p.input (omega (arith, e.offset_end))) ∙ d.decode_end in
      rw rune (record {
        offset_end = omega (arith, e.offset_end, e.width_end);
        rune_end = refl;
        width_end = refl;
      })

  class_lem :
      (chr : CharClassMatcher) (p : Parser)
      → parse_char_class_matcher env chr p
        ≡ class_result env chr.inverted
            (folded env chr.ignore_case p.pt.rn)
            (in_class env chr (folded env chr.ignore_case p.pt.rn))
            p
  unfolding parse_char_class_matcher
  class_lem chr p = refl

  class_result-inverted :
      (inverted : Bool) (cur : ℕ) (r : Found) (p : Parser)
      → inverted ≡ true
      → r ≡ miss
      → class_result env inverted cur r p
        ≡ reading env p (λ q. ended (str (env.encode_rune cur)) true q)
  unfolding class_result
  class_result-inverted inverted cur r p e e' = rw (e, e') refl

  class-AtEnd :
      (chr : CharClassMatcher) (p : Parser)
      → AtEnd p
      → chr.inverted ≡ true
      → in_class env chr (folded env chr.ignore_case rune_error) ≡ miss
      → (v : Value) × (parse_char_class_matcher env chr p ≡ ended v true (read env p))
  class-AtEnd chr p e inverted out =
      let cur = folded env chr.ignore_case p.pt.rn in
      let missed : in_class env chr cur ≡ miss =
        ap (λ rn. in_class env chr (folded env chr.ignore_case rn)) e.rune_end ∙ out in
      (
        str (env.encode_rune cur),
        class_lem chr p
            ∙ class_result-inverted chr.inverted cur (in_class env chr cur) p inverted missed
            ∙ reading-eq env p (λ q. ended (str (env.encode_rune cur)) true q)
                (omega (arith, e.offset_end, e.width_end)),
      )

  -- Rounds of an expression that matches at the end of the input without leaving it.
  rounds-AtEnd :
      (rec : Expr → Parser → Outcome) (e : Expr) (stop : Values → Parser → Outcome)
      → ((p : Parser) → AtEnd p → (v : Value) × (q : Parser) × (rec e p ≡ ended v true q) × AtEnd q)
      → (n : ℕ) (vs : Values) (p : Parser) → AtEnd p
      → rounds env rec e stop n vs p ≡ out_of_fuel
  unfolding rounds
  rounds-AtEnd rec e stop again zero vs p at = refl
  rounds-AtEnd rec e stop again (suc n) vs p at =
      let (v, q, h, at') = again p at in
      rw h (rounds-AtEnd rec e stop again n (append_val vs v) q at')

  class_again :
      (f : ℕ) (chr : CharClassMatcher)
      → chr.inverted ≡ true
      → in_class env chr (folded env chr.ignore_case rune_error) ≡ miss
      → (p : Parser) → AtEnd p
      → (v : Value) × (q : Parser) × (parse_expr env (suc f) (Syntax.char_class_matcher chr) p
          ≡ ended v true q)
        × AtEnd q
  unfolding parse_expr dispatch
  class_again f chr inverted out p at =
      let (v, h) = class-AtEnd chr p at inverted out in (v, read env p, h, read-AtEnd p at)

  -- With no bytes decoded as U+FFFD of width 0: at the end of the input an inverted class that
  -- does not list U+FFFD matches without reading, so the loop of a `*` over it never ends; no
  -- amount of fuel gives a result.
  pub inverted_class-loops :
      (fuel : ℕ) (pos : Position) (chr : CharClassMatcher) (p : Parser)
      → AtEnd p
      → chr.inverted ≡ true
      → in_class env chr (folded env chr.ignore_case rune_error) ≡ miss
      → parse_expr env fuel (Syntax.zero_or_more_expr pos (Syntax.char_class_matcher chr)) p
        ≡ out_of_fuel
  unfolding parse_expr dispatch
  inverted_class-loops zero pos chr p at inverted out = refl
  inverted_class-loops (suc zero) pos chr p at inverted out = refl
  inverted_class-loops (suc (suc f)) pos chr p at inverted out =
      rounds-AtEnd (parse_expr env (suc f)) (Syntax.char_class_matcher chr) (stop_zero env)
        (class_again f chr inverted out) (suc f) no_vals p at

  offset_read : (p : Parser) → (read env p).pt.position.offset ≡ p.pt.position.offset + p.pt.w
  unfolding next_savepoint
  offset_read p = ap (λ (pt : Savepoint). pt.position.offset) (read-pt env p)

  rune_read :
      (p : Parser)
      → (read env p).pt.rn ≡ (env.decode_rune (drop (p.pt.position.offset + p.pt.w) p.input)).0
  unfolding next_savepoint
  rune_read p = ap (λ (pt : Savepoint). pt.rn) (read-pt env p)

  any_lem :
      (fuel : ℕ) (pos : Position) (p : Parser)
      → p.pt.rn ≢ rune_error
      → p.pt.position.offset + p.pt.w ≤ length p.input
      → parse_expr env (suc fuel) (Syntax.any_matcher pos) p
        ≡ ended (str (env.encode_rune (read env p).pt.rn)) true (read env p)
  unfolding parse_expr dispatch
  any_lem fuel pos p h fits = elim (Bool-cases (p.pt.rn == rune_error)) [
    | inl at_error ↦ absurd (h ((==_iff p.pt.rn rune_error).0 at_error))
    | inr fine ↦ rw fine (reading-eq env p (λ q. ended (str (env.encode_rune q.pt.rn)) true q) fits)
  ]

  -- The value of the any matcher, on a current rune that is not U+FFFD and ends within the input, is
  -- the text of the rune that stands behind the matched one, at the place where the match ends.
  pub any_matcher-value :
      (fuel : ℕ) (pos : Position) (p : Parser)
      → p.pt.rn ≢ rune_error
      → p.pt.position.offset + p.pt.w ≤ length p.input
      → (q : Parser) × (parse_expr env (suc fuel) (Syntax.any_matcher pos) p
          ≡ ended
              (str (
                env.encode_rune (env.decode_rune (drop (p.pt.position.offset + p.pt.w) p.input)).0))
              true
              q)
        × (q.pt.position.offset ≡ p.pt.position.offset + p.pt.w)
  any_matcher-value fuel pos p h fits = (
    read env p,
    any_lem fuel pos p h fits
        ∙ ap (λ rn. ended (str (env.encode_rune rn)) true (read env p)) (rune_read p),
    offset_read p,
  )
