-- ===== src/Peg/Runtime/Semantics/At.antt =====
-- peg/builder/static_code.go: a parser at an offset, and what a run of it means.
use exp.Base.{
  ℕ, ◌+◌, ◌≡◌, refl, sym, ◌∙◌, ap, Bool, true, false, Option, none, some, List, [], ◌∷◌, Text, ◌==◌,
  ==_iff, drop, if-All,
}
use exp.Peg.Runtime.Syntax.{Position, Expr, Rule}
use exp.Peg.Runtime.State.{
  Value, ArgMap, Current, Savepoint, Parser, Ran, returned, ran_panic, Env, VStack, DecodesUtf8,
  next_savepoint, read, restore, add_err, add_err_at, pop_v,
}
use exp.Peg.Runtime.Errors.{ErrList}
use exp.Peg.Runtime.Matchers.{Outcome, ended, panicked, out_of_fuel, on_end}
use exp.Peg.Runtime.Engine.{Rec, note, popping_rule, popping_v, with_top, running}
use exp.Peg.Runtime.Frame.{offset_of, Located, Follows}
use exp.Peg.Runtime.Frame.Moves.{Located-fits, read-Follows, read-pt}
use exp.Peg.Runtime.Semantics.{rune_at, behind, Parses}

module _ (env : Env) (d : DecodesUtf8 env) (input : Text) (rules : Text → Option Rule) where
  -- The parser stands at an offset of this input, with these rules.
  pub record At (o : ℕ) (p : Parser) : Type 0 where
    pub input_is : p.input ≡ input
    pub rules_are : p.rules ≡ rules
    pub offset_is : offset_of p ≡ o
    pub located : Located env p

  pub At-Follows : {o : ℕ} (p q : Parser) → At o p → Follows env p q → At (offset_of q) q
  At-Follows p q a f = record {
    input_is = f.input_kept ∙ a.input_is;
    rules_are = f.rules_kept ∙ a.rules_are;
    offset_is = refl;
    located = f.located;
  }

  -- A run from an offset gives a result that the relation allows, at the offset of the result.
  abbrev pub Means : ℕ → (Option ℕ → Type 0) → Outcome → Type 0
  Means o R (ended v true q) = (o' : ℕ) × At o' q × R (some o')
  Means o R (ended v false q) = At o q × R none
  Means o R (panicked t q) = Unit {0}
  Means o R out_of_fuel = Unit {0}

  pub Means-on_end :
      (o o₁ : ℕ) (R R₁ : Option ℕ → Type 0) (r : Outcome) (k : Value → Bool → Parser → Outcome)
      → Means o₁ R₁ r
      → ((v : Value) (q : Parser) (o' : ℕ) → At o' q → R₁ (some o') → Means o R (k v true q))
      → ((v : Value) (q : Parser) → At o₁ q → R₁ none → Means o R (k v false q))
      → Means o R (on_end r k)
  Means-on_end o o₁ R R₁ (ended v true q) k (o', a, h) onto stay = onto v q o' a h
  Means-on_end o o₁ R R₁ (ended v false q) k (a, h) onto stay = stay v q a h
  Means-on_end o o₁ R R₁ (panicked t q) k m onto stay = tt
  Means-on_end o o₁ R R₁ out_of_fuel k m onto stay = tt

  -- The rune at hand is the one at the offset.
  pub At-rune : (o : ℕ) (p : Parser) → At o p → p.pt.rn ≡ rune_at env input rules o
  At-rune o p a =
      sym (ap (λ (t : ℕ × ℕ). t.0) a.located.decoded)
      ∙ ap (λ (t : Text). (env.decode_rune t).0)
          (ap (λ n. drop n p.input) a.offset_is ∙ ap (drop o) a.input_is)

  pub At-width : (o : ℕ) (p : Parser) → At o p → o + p.pt.w ≡ behind env input rules o
  At-width o p a =
      ap (λ n. o + n)
        (sym (ap (λ (t : ℕ × ℕ). t.1) a.located.decoded)
          ∙ ap (λ (t : Text). (env.decode_rune t).1)
              (ap (λ n. drop n p.input) a.offset_is ∙ ap (drop o) a.input_is))

  pub next-offset : (p : Parser) → offset_of (read env p) ≡ offset_of p + p.pt.w
  unfolding next_savepoint
  next-offset p = ap (λ (pt : Savepoint). pt.position.offset) (read-pt env p)

  pub At-read : (o : ℕ) (p : Parser) → At o p → At (behind env input rules o) (read env p)
  At-read o p a =
      let b = At-Follows p (read env p) a (read-Follows env p (Located-fits env d p a.located)) in
      record {
        input_is = b.input_is;
        rules_are = b.rules_are;
        offset_is = next-offset p ∙ ap (λ n. n + p.pt.w) a.offset_is ∙ At-width o p a;
        located = b.located;
      }

  -- What does not move the parser keeps it at its offset.
  pub At-other :
      (o : ℕ) (p : Parser) (vs : VStack) (rs : List Rule) (cur : Current) (errs : ErrList)
      → At o p
      → At o (record p { vstack = vs; rstack = rs; cur = cur; errs = errs })
  At-other o p vs rs cur errs a = record {
    input_is = a.input_is;
    rules_are = a.rules_are;
    offset_is = a.offset_is;
    located = record { in_input = a.located.in_input; decoded = a.located.decoded };
  }

  pub At-restore : (o o' : ℕ) (p q : Parser) → At o p → At o' q → At o (restore p.pt q)
  unfolding restore
  At-restore o o' p q a b =
      let e : q.input ≡ p.input = b.input_is ∙ sym a.input_is in
      if-All (At o) (offset_of p == offset_of q) q (record q { pt = p.pt })
        (λ h. record {
          input_is = b.input_is;
          rules_are = b.rules_are;
          offset_is = sym ((==_iff (offset_of p) (offset_of q)).0 h) ∙ a.offset_is;
          located = b.located;
        })
        (λ h. record {
          input_is = b.input_is;
          rules_are = b.rules_are;
          offset_is = a.offset_is;
          located = record { in_input = rw e a.located.in_input; decoded = rw e a.located.decoded };
        })

  pub Means-popping :
      (o o' : ℕ) (R : Option ℕ → Type 0) (q : Parser) (k : Parser → Outcome)
      → At o' q
      → ((u : Parser) → At o' u → Means o R (k u))
      → Means o R (popping_v env q k)
  Means-popping o o' R q k a h = go (pop_v q.vstack)
    where
      go :
          (r : Option VStack)
          → Means o R (elim r [
            | none ↦ panicked env.index_panic q
            | some vs ↦ k (record q { vstack = vs })
          ])
      go none = tt
      go (some vs) = h (record q { vstack = vs }) (At-other o' q vs q.rstack q.cur q.errs a)

  pub Means-top :
      (o : ℕ) (R : Option ℕ → Type 0) (ms : List ArgMap) (q : Parser) (k : ArgMap → Outcome)
      → ((m : ArgMap) → Means o R (k m))
      → Means o R (with_top env ms q k)
  Means-top o R [] q k h = tt
  Means-top o R (m ∷ ms) q k h = h m

  pub Means-rule :
      (o o' : ℕ) (R : Option ℕ → Type 0) (rs : List Rule) (q : Parser) (k : Parser → Outcome)
      → At o' q
      → ((u : Parser) → At o' u → Means o R (k u))
      → Means o R (popping_rule env rs q k)
  Means-rule o o' R [] q k a h = tt
  Means-rule o o' R (r ∷ rs) q k a h =
      h (record q { rstack = rs }) (At-other o' q q.vstack rs q.cur q.errs a)

  pub Means-running {ℓ} :
      {A : Type ℓ} (code : Current → ArgMap → Ran A) (o o' : ℕ) (R : Option ℕ → Type 0) (q : Parser)
      (k : A → Option Text → Parser → Outcome)
      → At o' q
      → ((a : A) (e : Option Text) (u : Parser) → At o' u → Means o R (k a e u))
      → Means o R (running env code q k)
  Means-running {A = A} code o o' R q k at h =
      Means-top o R q.vstack.live q _ (λ args. go (code q.cur args))
    where
      go :
          (r : Ran A)
          → Means o R (elim r [
            | returned a e cur ↦ k a e (record q { cur = cur })
            | ran_panic e ↦ panicked e q
          ])
      go (returned a e cur) =
          h a e (record q { cur = cur }) (At-other o' q q.vstack q.rstack cur q.errs at)
      go (ran_panic e) = tt

  pub At-note :
      (o : ℕ) (add_to : Text → Parser → Parser) (e : Option Text) (q : Parser)
      → At o q
      → ((t : Text) → At o (add_to t q))
      → At o (note add_to e q)
  At-note o add_to none q a h = a
  At-note o add_to (some t) q a h = h t

  pub At-add_err_at :
      (o : ℕ) (t : Text) (pos : Position) (q : Parser) → At o q → At o (add_err_at env t pos q)
  unfolding add_err_at
  At-add_err_at o t pos q a = At-other o q q.vstack q.rstack q.cur _ a

  pub At-add_err : (o : ℕ) (t : Text) (q : Parser) → At o q → At o (add_err env t q)
  unfolding add_err
  At-add_err o t q a = At-add_err_at o t q.pt.position q a

  abbrev pub Allows : Expr → ℕ → Option ℕ → Type 0
  Allows e o r = Parses env input rules e o r

  abbrev pub Sounds : Rec → Type 0
  Sounds rec = (e : Expr) (o : ℕ) (p : Parser) → At o p → Means o (Allows e o) (rec e p)
