-- ===== src/Peg/Runtime/Frame/Moves.antt =====
-- peg/builder/static_code.go: `read`, `restore`, `addErr` and the stack of argument maps.
use exp.Base.{
  ℕ, ◌+◌, ◌≤◌, if◌then◌else◌, ◌≡◌, refl, sym, ap, Bool, true, false, [], ◌++◌, Text, append-nil,
  arith, length, length-drop, drop, leb,
}
use exp.Peg.Runtime.Syntax.{Position}
use exp.Peg.Runtime.Errors.{ErrList, add}
use exp.Peg.Runtime.State.{
  Current, Savepoint, Parser, Env, DecodesUtf8, add_err_at, add_err, next_savepoint, read, restore,
}
use exp.Peg.Runtime.Matchers.{Outcome, reading}
use exp.Peg.Runtime.Frame.{offset_of, Located, Follows}
use exp.Peg.Runtime.Frame.Compose.{SameBelow-refl, Follows-trans}

-- The text that is left behind the current rune begins where its bytes end.
pub Located-fits :
    (env : Env)
    → DecodesUtf8 env
    → (p : Parser) → Located env p
    → offset_of p + p.pt.w ≤ length p.input
Located-fits env d p l = omega (
  arith,
  l.in_input,
  d.width_le (drop (offset_of p) p.input),
  length-drop (offset_of p) p.input,
  ap (λ (t : ℕ × ℕ). t.1) l.decoded,
)

abbrev pub Grown : ErrList → ErrList → Type 0
Grown old errs = (new : ErrList) × (errs ≡ old ++ new)

pub Grown-refl : (errs : ErrList) → Grown errs errs
Grown-refl errs = ([], sym (append-nil errs))

module _ (env : Env) where
  -- A move that changes nothing but the place, the current match and the errors.
  pub Follows-move :
      (p : Parser) (pt : Savepoint) (cur : Current) (errs : ErrList)
      → Located env (record p { pt = pt })
      → offset_of p ≤ pt.position.offset
      → Grown p.errs errs
      → Follows env p (record p { pt = pt; cur = cur; errs = errs })
  Follows-move p pt cur errs l h g = record {
    input_kept = refl;
    filename_kept = refl;
    rules_kept = refl;
    rstack_kept = refl;
    below_kept = SameBelow-refl p.vstack.live;
    located = record { in_input = l.in_input; decoded = l.decoded };
    onward = h;
    appended = g;
  }

  pub add_err_at-Follows :
      (e : Text) (pos : Position) (p : Parser)
      → Located env p
      → Follows env p (add_err_at env e pos p)
  unfolding add_err_at add
  add_err_at-Follows e pos p l = Follows-move p p.pt p.cur _ l (omega arith) (_, refl)

  pub add_err-Follows : (e : Text) (p : Parser) → Located env p → Follows env p (add_err env e p)
  unfolding add_err
  add_err-Follows e p l = add_err_at-Follows e p.pt.position p l

  pub add_err-offset : (e : Text) (p : Parser) → offset_of (add_err env e p) ≡ offset_of p
  unfolding add_err
  add_err-offset e p = refl

  Follows-if :
      {p : Parser} (b : Bool) (q r : Parser)
      → Follows env p q
      → Follows env p r
      → Follows env p (if b then q else r)
  Follows-if true q r f g = f
  Follows-if false q r f g = g

  -- Reading keeps to the input, also at its end, where the offset stays.
  pub read-Follows :
      (p : Parser) → offset_of p + p.pt.w ≤ length p.input → Follows env p (read env p)
  unfolding read next_savepoint
  read-Follows p h =
      let moved =
        Follows-move p (next_savepoint env p.input p.pt) p.cur p.errs
          (record { in_input = h; decoded = refl }) (omega arith) (Grown-refl p.errs) in
      Follows-if _ _ _ (Follows-trans moved (add_err-Follows _ _ moved.located)) moved

  -- Such a read does not panic.
  pub reading-All {ℓ} :
      (P : Outcome → Type ℓ) (p : Parser) (k : Parser → Outcome)
      → offset_of p + p.pt.w ≤ length p.input
      → P (k (read env p))
      → P (reading env p k)
  unfolding next_savepoint
  reading-All P p k h x =
      let fits : leb (offset_of p + p.pt.w) (length p.input) ≡ true = ground arith in rw fits x

  pub reading-eq :
      (p : Parser) (k : Parser → Outcome)
      → offset_of p + p.pt.w ≤ length p.input
      → reading env p k ≡ k (read env p)
  reading-eq p k h = reading-All (λ o. o ≡ k (read env p)) p k h refl

  -- Noting an encoding error does not move the parser.
  pub read-pt : (p : Parser) → (read env p).pt ≡ next_savepoint env p.input p.pt
  unfolding read next_savepoint
  read-pt p = if-pt _ _ _ refl refl
    where
      if-pt :
          {pt : Savepoint} (b : Bool) (q r : Parser)
          → q.pt ≡ pt
          → r.pt ≡ pt
          → (if b then q else r).pt ≡ pt
      if-pt true q r h h' = h
      if-pt false q r h h' = h'

  -- Going back to a place of the same run: what follows is what followed before.
  pub restore-Follows :
      (p q : Parser) → Located env p → Follows env p q → Follows env p (restore p.pt q)
  unfolding restore
  restore-Follows p q l f = Follows-if _ _ _ f (record {
    input_kept = f.input_kept;
    filename_kept = f.filename_kept;
    rules_kept = f.rules_kept;
    rstack_kept = f.rstack_kept;
    below_kept = f.below_kept;
    located = record { in_input = rw f.input_kept l.in_input; decoded = rw f.input_kept l.decoded };
    onward = omega arith;
    appended = f.appended;
  })

pub restore-offset : (pt : Savepoint) (q : Parser) → offset_of (restore pt q) ≡ pt.position.offset
unfolding restore
restore-offset pt q = ground arith
