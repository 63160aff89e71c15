-- ===== src/Peg/Runtime/Frame/Compose.antt =====
-- peg/builder/static_code.go: calls of `parse…` methods one after the other.
use exp.Base.{
  ◌≡◌, refl, sym, ◌∙◌, ap, Bool, false, Option, List, [], ◌∷◌, ◌++◌, Text, append_assoc, append-nil,
  arith,
}
use exp.Peg.Runtime.Syntax.{Rule}
use exp.Peg.Runtime.State.{Value, ArgMap, Parser, Env}
use exp.Peg.Runtime.Matchers.{Outcome, ended, panicked, out_of_fuel, on_end}
use exp.Peg.Runtime.Frame.{SameBelow, offset_of, Located, Follows, Ready, Post}

pub SameBelow-refl : (live : List ArgMap) → SameBelow live live
SameBelow-refl [] = refl
SameBelow-refl (m ∷ ms) = (m, refl)

pub SameBelow-trans : (a b c : List ArgMap) → SameBelow a b → SameBelow b c → SameBelow a c
SameBelow-trans [] b c h k = rw h at k
SameBelow-trans (m ∷ ms) b c h k = rw h.1 at k

module _ {env : Env} where
  pub Follows-refl : (p : Parser) → Located env p → Follows env p p
  Follows-refl p l = record {
    input_kept = refl;
    filename_kept = refl;
    rules_kept = refl;
    rstack_kept = refl;
    below_kept = SameBelow-refl p.vstack.live;
    located = l;
    onward = omega arith;
    appended = ([], sym (append-nil p.errs));
  }

  pub Follows-trans : {p q r : Parser} → Follows env p q → Follows env q r → Follows env p r
  Follows-trans {p} {q} {r} f g = record {
    input_kept = g.input_kept ∙ f.input_kept;
    filename_kept = g.filename_kept ∙ f.filename_kept;
    rules_kept = g.rules_kept ∙ f.rules_kept;
    rstack_kept = g.rstack_kept ∙ f.rstack_kept;
    below_kept =
        SameBelow-trans p.vstack.live q.vstack.live r.vstack.live f.below_kept g.below_kept;
    located = g.located;
    onward = omega (arith, f.onward, g.onward);
    appended = (
      f.appended.0 ++ g.appended.0,
      g.appended.1
          ∙ ap (λ es. es ++ g.appended.0) f.appended.1
          ∙ append_assoc p.errs f.appended.0 g.appended.0,
    );
  }

module _ (env : Env) (Permitted : Type 0) where
  pub Ready-Follows :
      {p q : Parser} → Ready env Permitted p → Follows env p q → Ready env Permitted q
  Ready-Follows {p} {q} r f = record {
    place = f.located;
    args = topped p.vstack.live q.vstack.live r.args f.below_kept;
    built = λ name rule e.
        r.built name rule (ap (λ (t : Text → Option Rule). t name) (sym f.rules_kept) ∙ e);
  }
    where
      topped :
          (a b : List ArgMap)
          → ((m : ArgMap) × (ms : List ArgMap) × (a ≡ m ∷ ms))
          → SameBelow a b
          → (m : ArgMap) × (ms : List ArgMap) × (b ≡ m ∷ ms)
      topped [] b (m, ms, e) h = cc
      topped (m ∷ ms) b _ h = (h.0, ms, h.1)

  -- A call, then a caller that goes on from its end.
  pub Post-on_end :
      (p : Parser) {q : Parser} (o : Outcome) (k : Value → Bool → Parser → Outcome)
      → Post env Permitted q o
      → ((v : Value) (ok : Bool) (r : Parser)
          → Follows env q r
          → (ok ≡ false → offset_of r ≡ offset_of q)
          → Post env Permitted p (k v ok r))
      → Post env Permitted p (on_end o k)
  Post-on_end p (ended v ok r) k h step = step v ok r h.0 h.1
  Post-on_end p (panicked e r) k h step = h
  Post-on_end p out_of_fuel k h step = tt

  -- A caller that began where a smaller part follows.
  pub Post-Follows :
      {p q : Parser} (o : Outcome)
      → Follows env p q
      → offset_of q ≡ offset_of p
      → Post env Permitted q o
      → Post env Permitted p o
  Post-Follows (ended v ok r) f same h = (Follows-trans f h.0, λ e. h.1 e ∙ same)
  Post-Follows (panicked e r) f same h = h
  Post-Follows out_of_fuel f same h = tt
