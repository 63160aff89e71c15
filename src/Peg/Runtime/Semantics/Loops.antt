-- ===== src/Peg/Runtime/Semantics/Loops.antt =====
-- peg/builder/static_code.go: choices, sequences and repetitions against the relation.
use exp.Base.{ℕ, zero, suc, true, Option, none, some, Text}
use exp.Peg.Runtime.Syntax
use exp.Peg.Runtime.Syntax.{Position, CharClassMatcher, LitMatcher, Expr, Exprs, Rule}
use exp.Peg.Runtime.State.{Value, Values, no_vals, append_val, Parser, Env, DecodesUtf8, save}
use exp.Peg.Runtime.Matchers.{Outcome, ended}
use exp.Peg.Runtime.Engine.{
  Rec, pushing_v, parse_and_expr, parse_not_expr, parse_choice_expr, seq_loop, rounds, stop_zero,
  stop_one, parse_zero_or_more_expr, parse_one_or_more_expr, parse_zero_or_one_expr,
}
use exp.Peg.Runtime.Semantics
use exp.Peg.Runtime.Semantics.{
  rune_at, behind, literal_result, class_end, Parses, Repeats, ParsesAll, ParsesAny,
}
use exp.Peg.Runtime.Semantics.At.{
  At, Means, Means-on_end, At-other, At-restore, Means-popping, Allows, Sounds,
}

module _ (env : Env) (d : DecodesUtf8 env) (input : Text) (rules : Text → Option Rule) where
  module _ (rec : Rec) (sounds : Sounds env d input rules rec) where
    pub and-Means :
        (pos : Position) (e : Expr) (o : ℕ) (p : Parser)
        → At env d input rules o p
        → Means env d input rules o
            (Allows env d input rules (Syntax.and_expr pos e) o)
            (parse_and_expr env rec e p)
    unfolding parse_and_expr save
    and-Means pos e o p a =
        Means-on_end env d input rules o o (Allows env d input rules (Syntax.and_expr pos e) o)
          (Allows env d input rules e o) (rec e p) _ (sounds e o p a)
          (λ v q o' b h. (o, At-restore env d input rules o o' p q a b, Semantics.follows h))
          (λ v q b h. (At-restore env d input rules o o p q a b, Semantics.not_follows h))

    pub not-Means-expr :
        (pos : Position) (e : Expr) (o : ℕ) (p : Parser)
        → At env d input rules o p
        → Means env d input rules o
            (Allows env d input rules (Syntax.not_expr pos e) o)
            (parse_not_expr env rec e p)
    unfolding parse_not_expr save
    not-Means-expr pos e o p a =
        Means-on_end env d input rules o o (Allows env d input rules (Syntax.not_expr pos e) o)
          (Allows env d input rules e o) (rec e p) _ (sounds e o p a)
          (λ v q o' b h. (At-restore env d input rules o o' p q a b, Semantics.excluded h))
          (λ v q b h. (o, At-restore env d input rules o o p q a b, Semantics.not_excluded h))

    pub pushed-At :
        (o : ℕ) (p : Parser) → At env d input rules o p → At env d input rules o (pushing_v env p)
    pushed-At o p a =
        At-other env d input rules o p (pushing_v env p).vstack p.rstack p.cur p.errs a

    pub choice-Means :
        (es : Exprs) (o : ℕ) (p : Parser) (R : Option ℕ → Type 0)
        → At env d input rules o p
        → ((r : Option ℕ) → ParsesAny env input rules es o r → R r)
        → Means env d input rules o R (parse_choice_expr env rec es p)
    unfolding parse_choice_expr
    choice-Means Syntax.end o p R a h = (a, h none Semantics.none_left)
    choice-Means (Syntax.more e es) o p R a h =
        Means-on_end env d input rules o o R (Allows env d input rules e o)
          (rec e (pushing_v env p)) _ (sounds e o _ (pushed-At o p a))
          (λ v q o' b g.
            Means-popping env d input rules o o' R q (λ u. ended v true u) b
              λ u c. (o', c, h (some o') (Semantics.any_here g)))
          (λ v q b g.
            Means-popping env d input rules o o R q _ b
              λ u c. choice-Means es o u R c (λ r k. h r (Semantics.any_later g k)))

    pub seq_loop-Means :
        (es : Exprs) (vs : Values) (o o' : ℕ) (p q : Parser) (R : Option ℕ → Type 0)
        → At env d input rules o p
        → At env d input rules o' q
        → ((r : Option ℕ) → ParsesAll env input rules es o' r → R r)
        → Means env d input rules o R (seq_loop env rec p.pt es vs q)
    unfolding seq_loop
    seq_loop-Means Syntax.end vs o o' p q R a b h = (o', b, h (some o') Semantics.all_done)
    seq_loop-Means (Syntax.more e es) vs o o' p q R a b h =
        Means-on_end env d input rules o o' R (Allows env d input rules e o') (rec e q) _
          (sounds e o' q b)
          (λ v u o'' c g.
            seq_loop-Means es (append_val vs v) o o'' p u R a c
              (λ r k. h r (Semantics.all_next g k)))
          (λ v u c g. (At-restore env d input rules o o' p u a c, h none (Semantics.all_stop g)))

    -- The rounds behind a first match.
    pub rounds-Means :
        (e : Expr) (stop : Values → Parser → Outcome) (n : ℕ) (vs : Values) (v : Value) (o o' : ℕ)
        (q : Parser) (R : Option ℕ → Type 0)
        → At env d input rules o' q
        → ((ws : Values) (w : Value) (o'' : ℕ) (u : Parser)
            → At env d input rules o'' u
            → Repeats env input rules e o' o''
            → Means env d input rules o R (stop (append_val ws w) u))
        → Means env d input rules o R (rounds env rec e stop n (append_val vs v) q)
    unfolding rounds
    rounds-Means e stop zero vs v o o' q R b h = tt
    rounds-Means e stop (suc n) vs v o o' q R b h =
        Means-on_end env d input rules o o' R (Allows env d input rules e o') (rec e q) _
          (sounds e o' q b)
          (λ w u o'' c g.
            rounds-Means e stop n (append_val vs v) w o o'' u R c
              (λ ws x last t l k. h ws x last t l (Semantics.next g k)))
          (λ w u c g. h vs v o' u c (Semantics.done g))

    pub zero_or_more-Means :
        (pos : Position) (e : Expr) (f o : ℕ) (p : Parser)
        → At env d input rules o p
        → Means env d input rules o
            (Allows env d input rules (Syntax.zero_or_more_expr pos e) o)
            (parse_zero_or_more_expr env rec e f p)
    unfolding parse_zero_or_more_expr rounds
    zero_or_more-Means pos e zero o p a = tt
    zero_or_more-Means pos e (suc f) o p a =
        let R = Allows env d input rules (Syntax.zero_or_more_expr pos e) o in
        Means-on_end env d input rules o o R (Allows env d input rules e o) (rec e p) _
          (sounds e o p a)
          (λ v q o' b g.
            rounds-Means e (stop_zero env) f no_vals v o o' q R b
              (λ ws w o'' u c k. (o'', c, Semantics.many (Semantics.next g k))))
          (λ v q b g. (o, b, Semantics.many (Semantics.done g)))

    pub stop_one-Means :
        (ws : Values) (w : Value) (o o' : ℕ) (u : Parser) (R : Option ℕ → Type 0)
        → At env d input rules o' u
        → R (some o')
        → Means env d input rules o R (stop_one env (append_val ws w) u)
    unfolding append_val
    stop_one-Means no_vals w o o' u R b h = (o', b, h)
    stop_one-Means (Values.val x ws) w o o' u R b h = (o', b, h)

    pub one_or_more-Means :
        (pos : Position) (e : Expr) (f o : ℕ) (p : Parser)
        → At env d input rules o p
        → Means env d input rules o
            (Allows env d input rules (Syntax.one_or_more_expr pos e) o)
            (parse_one_or_more_expr env rec e f p)
    unfolding parse_one_or_more_expr rounds
    one_or_more-Means pos e zero o p a = tt
    one_or_more-Means pos e (suc f) o p a =
        let R = Allows env d input rules (Syntax.one_or_more_expr pos e) o in
        Means-on_end env d input rules o o R (Allows env d input rules e o) (rec e p) _
          (sounds e o p a)
          (λ v q o' b g.
            rounds-Means e (stop_one env) f no_vals v o o' q R b
              (λ ws w o'' u c k. stop_one-Means ws w o o'' u R c (Semantics.some_more g k)))
          (λ v q b g. (b, Semantics.not_one g))

    pub zero_or_one-Means :
        (pos : Position) (e : Expr) (o : ℕ) (p : Parser)
        → At env d input rules o p
        → Means env d input rules o
            (Allows env d input rules (Syntax.zero_or_one_expr pos e) o)
            (parse_zero_or_one_expr env rec e p)
    unfolding parse_zero_or_one_expr
    zero_or_one-Means pos e o p a =
        Means-on_end env d input rules o o
          (Allows env d input rules (Syntax.zero_or_one_expr pos e) o)
          (Allows env d input rules e o) (rec e p) _ (sounds e o p a)
          (λ v q o' b h. (o', b, Semantics.once h)) (λ v q b h. (o, b, Semantics.absent h))
