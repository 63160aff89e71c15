-- ===== src/Peg/Runtime/Frame/Code.antt =====
-- peg/builder/static_code.go: what the expressions with a code block or a label keep.
use exp.Base.{
  ℕ, ◌≡◌, refl, Bool, true, false, not, Option, none, some, Text, arith, if◌then◌else◌, leb, length,
  ◌≤◌, ◌-◌, take, drop,
}
use exp.Peg.Runtime.Syntax.{Position, Expr}
use exp.Peg.Runtime.State.{
  Value, nil, ArgMap, Current, Parser, Ran, returned, ran_panic, Env, add_err, add_err_at, save,
  slice,
}
use exp.Peg.Runtime.Matchers.{Outcome, ended, panicked}
use exp.Peg.Runtime.Engine.{
  Rec, note, running, sliced, parse_action_expr, parse_and_code_expr, parse_not_code_expr,
}
use exp.Peg.Runtime.Frame.{offset_of, Located, Follows, CodeReturns, WellBuilt, Ready, Post}
use exp.Peg.Runtime.Frame.Compose.{Follows-refl, Follows-trans, Ready-Follows, Post-on_end}
use exp.Peg.Runtime.Frame.Moves.{
  Grown-refl, Follows-move, add_err-Follows, add_err_at-Follows, add_err-offset,
}
use exp.Peg.Runtime.Frame.Containers.{Keeps}

-- A slice within the input.
slice-some :
    (p : Parser) (start stop : Position)
    → start.offset ≤ stop.offset
    → stop.offset ≤ length p.input
    → (text : Text) × (slice p start stop ≡ some text)
unfolding slice
slice-some p start stop h k =
    let low : leb start.offset stop.offset ≡ true = ground arith in
    let high : leb stop.offset (length p.input) ≡ true = ground arith in
    (take (stop.offset - start.offset) (drop start.offset p.input), rw (low, high) refl)

module _ (env : Env) (Permitted : Type 0) where
  -- A block of code, and a caller that goes on from what it returned.
  Post-running {ℓ} :
      {A : Type ℓ} (code : Current → ArgMap → Ran A) (p₀ p : Parser)
      (k : A → Option Text → Parser → Outcome)
      → CodeReturns env Permitted code
      → Ready env Permitted p
      → ((a : A) (e : Option Text) (cur : Current)
          → Post env Permitted p₀ (k a e (record p { cur = cur })))
      → Post env Permitted p₀ (running env code p k)
  Post-running {A} code p₀ p k returns r step =
      let (m, ms, e) = r.args in rw (e, running) (ran (code p.cur m) (returns p.cur m))
    where
      ran :
          (o : Ran A)
          → ((e : Text) → o ≡ ran_panic e → Permitted)
          → Post env Permitted p₀ (elim o [
            | returned a e cur ↦ k a e (record p { cur = cur })
            | ran_panic e ↦ panicked e p
          ])
      ran (returned a e cur) h = step a e cur
      ran (ran_panic e) h = h e refl

  cur-Follows :
      (p : Parser) (cur : Current) → Located env p → Follows env p (record p { cur = cur })
  cur-Follows p cur l = Follows-move env p p.pt cur p.errs l (omega arith) (Grown-refl p.errs)

  note-Follows :
      (add : Text → Parser → Parser) (e : Option Text) (p : Parser)
      → ((t : Text) → Follows env p (add t p))
      → Located env p
      → Follows env p (note add e p)
  note-Follows add none p h l = Follows-refl p l
  note-Follows add (some e) p h l = h e

  note-offset :
      (add : Text → Parser → Parser) (e : Option Text) (p : Parser)
      → ((t : Text) → offset_of (add t p) ≡ offset_of p)
      → offset_of (note add e p) ≡ offset_of p
  note-offset add none p h = refl
  note-offset add (some e) p h = h e

  pub and_code-Post :
      (run : ℕ) (p : Parser)
      → CodeReturns env Permitted (env.run_pred run)
      → Ready env Permitted p
      → Post env Permitted p (parse_and_code_expr env run p)
  unfolding parse_and_code_expr
  and_code-Post run p returns r =
      Post-running (env.run_pred run) p p (λ ok e u. ended nil ok (note (add_err env) e u)) returns
        r
        λ ok e cur.
          let q = record p { cur = cur } in
          let f = cur-Follows p cur r.place in
          (
            Follows-trans f
                (note-Follows (add_err env) e q (λ t. add_err-Follows env t q f.located) f.located),
            λ z. note-offset (add_err env) e q (λ t. add_err-offset env t q),
          )

  pub not_code-Post :
      (run : ℕ) (p : Parser)
      → CodeReturns env Permitted (env.run_pred run)
      → Ready env Permitted p
      → Post env Permitted p (parse_not_code_expr env run p)
  unfolding parse_not_code_expr
  not_code-Post run p returns r =
      Post-running (env.run_pred run) p p (λ ok e u. ended nil (not ok) (note (add_err env) e u))
        returns r
        λ ok e cur.
          let q = record p { cur = cur } in
          let f = cur-Follows p cur r.place in
          (
            Follows-trans f
                (note-Follows (add_err env) e q (λ t. add_err-Follows env t q f.located) f.located),
            λ z. note-offset (add_err env) e q (λ t. add_err-offset env t q),
          )

  module _ (rec : Rec) (keeps : Keeps env Permitted rec) where
    pub action-Post :
        (e : Expr) (run : ℕ) (p : Parser)
        → WellBuilt env Permitted e
        → CodeReturns env Permitted (env.run_action run)
        → Ready env Permitted p
        → Post env Permitted p (parse_action_expr env rec e run p)
    unfolding parse_action_expr save
    action-Post e run p b returns r =
        Post-on_end env Permitted p (rec e p) _ (keeps e p b r) λ v ok q f h. acted v ok q f h
      where
        acted :
            (v : Value) (ok : Bool) (q : Parser)
            → Follows env p q
            → (ok ≡ false → offset_of q ≡ offset_of p)
            → Post env Permitted p (
                let acted = sliced env (slice q p.pt.position q.pt.position) q λ text.
                  let q' = record q { cur = record { pos = p.pt.position; text = text } } in
                  running env
                    (env.run_action run)
                    q'
                    λ v' e u. ended v' ok (note (λ t. add_err_at env t p.pt.position) e u) in
                if ok then acted else ended v ok q)
        acted v false q f h = (f, h)
        acted v true q f h =
            let (text, part) =
              slice-some q p.pt.position q.pt.position f.onward f.located.in_input in
            let cur : Current = record { pos = p.pt.position; text = text } in
            let g = Follows-trans f (cur-Follows q cur f.located) in
            rw part (
              Post-running (env.run_action run) p (record q { cur = cur })
                (λ v' e u. ended v' true (note (λ t. add_err_at env t p.pt.position) e u)) returns
                (Ready-Follows env Permitted r g)
                λ v' e cur'.
                  let u = record q { cur = cur' } in
                  let k = Follows-trans f (cur-Follows q cur' f.located) in
                  let add = λ (t : Text) (w : Parser). add_err_at env t p.pt.position w in
                  (
                    Follows-trans k (
                        note-Follows add e u
                          (λ t. add_err_at-Follows env t p.pt.position u k.located) k.located),
                    λ z. cc,
                  ))
