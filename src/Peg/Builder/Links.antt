-- ===== src/Peg/Builder/Links.antt =====
-- peg/builder/builder.go: the functions that the nodes of a rule name are those that are written.
use mathlib.Core.List.Perm
use mathlib.Core.List.{Perm, perm_append_singleton}
use mathlib.Core.Path.{ap₂}
use exp.Base.{
  ℕ, Bool, true, false, some, ◌≡◌, ◌≢◌, ◌≤◌, ◌<◌, ◌+◌, refl, ap, sym, ◌∙◌, List, [], ◌∷◌, ◌++◌,
  Text, map, codes, arith,
}
use exp.Peg.Ast
use exp.Peg.Ast.{Expression, Expressions, Rule}
use exp.Peg.Builder.{Host, Builder, name_of}
use exp.Peg.Builder.Lowered
use exp.Peg.Builder.Lowered.{size, number, Node, Nodes, lower, lowers, rule_text}
use exp.Peg.Builder.Nodes.{write_rule}
use exp.Peg.Builder.Nodes.Emits.{feed, rule-feed}
use exp.Peg.Builder.Indices.{indices, all_indices, Increasing, number-Increasing}
use exp.Peg.Builder.Code.{◌>>=◌, write_rule_code, pop_args_set}
use exp.Peg.Builder.Functions.{
  labels, Func, functions, alternative_functions, seq_functions, Braced, all_func_lines,
}
use exp.Peg.Builder.Functions.Emits.{KeepsBraces, coded, expr-CodeEmits, number-Braced}

-- The functions that the nodes run, with what they have to return: a predicate's result or not.
abbrev mutual
  pub runs : Node → List (Bool × Text)
  runs (Lowered.action_expr p name n) = (false, name) ∷ runs n
  runs (Lowered.and_code_expr p name) = (true, name) ∷ []
  runs (Lowered.and_expr p n) = runs n
  runs (Lowered.any_matcher p) = []
  runs (Lowered.char_class_matcher c) = []
  runs (Lowered.choice_expr p ns) = all_runs ns
  runs (Lowered.labeled_expr p l n) = runs n
  runs (Lowered.lit_matcher l) = []
  runs (Lowered.not_code_expr p name) = (true, name) ∷ []
  runs (Lowered.not_expr p n) = runs n
  runs (Lowered.one_or_more_expr p n) = runs n
  runs (Lowered.rule_ref_expr p name) = []
  runs (Lowered.seq_expr p ns) = all_runs ns
  runs (Lowered.zero_or_more_expr p n) = runs n
  runs (Lowered.zero_or_one_expr p n) = runs n

  pub all_runs : Nodes → List (Bool × Text)
  all_runs Lowered.end = []
  all_runs (Lowered.more n ns) = runs n ++ all_runs ns

abbrev pub run_names : List (Bool × Text) → List Text
run_names [] = []
run_names ((is_pred, name) ∷ rs) = name ∷ run_names rs

-- No text twice.
abbrev pub Apart : Text → List Text → Type 0
Apart t [] = Unit
Apart t (u ∷ us) = (t ≢ u) × Apart t us

abbrev pub Distinct : List Text → Type 0
Distinct [] = Unit
Distinct (t ∷ ts) = Apart t ts × Distinct ts

-- Different numbers are printed differently.
abbrev pub PrintsApart : Host → Type 0
PrintsApart h = (m n : ℕ) → h.decimal m ≡ h.decimal n → m ≡ n

append-cancel : (ts us vs : Text) → ts ++ us ≡ ts ++ vs → us ≡ vs
append-cancel [] us vs e = e
append-cancel (t ∷ ts) us vs e = append-cancel ts us vs cc

run_names-append :
    (rs qs : List (Bool × Text)) → run_names (rs ++ qs) ≡ run_names rs ++ run_names qs
run_names-append [] qs = refl
run_names-append ((is_pred, name) ∷ rs) qs = ap (λ ns. name ∷ ns) (run_names-append rs qs)

map-append : (f : ℕ → Text) (ms ns : List ℕ) → map f (ms ++ ns) ≡ map f ms ++ map f ns
map-append f [] ns = refl
map-append f (m ∷ ms) ns = ap (λ ts. f m ∷ ts) (map-append f ms ns)

module _ (h : Host) (rule : Text) where
  abbrev pub declared : List Func → List (Bool × Text)
  declared [] = []
  declared (f ∷ fs) = (f.is_pred, name_of h rule f.ix) ∷ declared fs

  declared-append : (fs gs : List Func) → declared (fs ++ gs) ≡ declared fs ++ declared gs
  declared-append [] gs = refl
  declared-append (f ∷ fs) gs =
      ap (λ ds. (f.is_pred, name_of h rule f.ix) ∷ ds) (declared-append fs gs)

  append-Perm :
      {xs ys : List (Bool × Text)} (fs gs : List Func)
      → Perm xs (declared fs)
      → Perm ys (declared gs)
      → Perm (xs ++ ys) (declared (fs ++ gs))
  append-Perm {xs} {ys} fs gs d e = rw (declared-append fs gs) (Perm.append d e)

  mutual
    lower-Perm :
        (scope : List Text) (e : Expression)
        → Perm (runs (lower h rule e)) (declared (functions scope e))
    lower-Perm scope (Ast.choice_expr p es) = alternatives-Perm es
    lower-Perm scope (Ast.action_expr p e c ix) =
        let f : Func = record {
          is_pred = false;
          ix = ix;
          args = scope ++ labels e;
          code = c.val;
        } in
        let d : Bool × Text = (false, name_of h rule ix) in
        rw (declared-append (functions scope e) (f ∷ [])) (
          Perm.trans (Perm.cons d (lower-Perm scope e))
            (Perm.symm (perm_append_singleton d (declared (functions scope e)))))
    lower-Perm scope (Ast.seq_expr p es) = seq-Perm scope es
    lower-Perm scope (Ast.labeled_expr p l e) = lower-Perm [] e
    lower-Perm scope (Ast.and_expr p e) = lower-Perm scope e
    lower-Perm scope (Ast.not_expr p e) = lower-Perm scope e
    lower-Perm scope (Ast.zero_or_one_expr p e) = lower-Perm scope e
    lower-Perm scope (Ast.zero_or_more_expr p e) = lower-Perm scope e
    lower-Perm scope (Ast.one_or_more_expr p e) = lower-Perm scope e
    lower-Perm scope (Ast.rule_ref_expr p n) = Perm.refl []
    lower-Perm scope (Ast.and_code_expr p c ix) = Perm.refl _
    lower-Perm scope (Ast.not_code_expr p c ix) = Perm.refl _
    lower-Perm scope (Ast.lit_matcher l) = Perm.refl []
    lower-Perm scope (Ast.char_class_matcher c) = Perm.refl []
    lower-Perm scope (Ast.any_matcher a) = Perm.refl []

    alternatives-Perm :
        (es : Expressions)
        → Perm (all_runs (lowers h rule es)) (declared (alternative_functions es))
    alternatives-Perm Ast.no_more = Perm.refl []
    alternatives-Perm (Ast.more e es) =
        append-Perm (functions [] e) (alternative_functions es) (lower-Perm [] e)
          (alternatives-Perm es)

    seq-Perm :
        (scope : List Text) (es : Expressions)
        → Perm (all_runs (lowers h rule es)) (declared (seq_functions scope es))
    seq-Perm scope Ast.no_more = Perm.refl []
    seq-Perm scope (Ast.more e es) =
        append-Perm (functions scope e) (seq_functions (scope ++ labels e) es) (lower-Perm scope e)
          (seq-Perm (scope ++ labels e) es)

  -- The nodes name their functions by their numbers, from the left.
  mutual
    runs-indices :
        (e : Expression) → run_names (runs (lower h rule e)) ≡ map (name_of h rule) (indices e)
    runs-indices (Ast.choice_expr p es) = all-indices es
    runs-indices (Ast.action_expr p e c ix) = ap (λ ts. name_of h rule ix ∷ ts) (runs-indices e)
    runs-indices (Ast.seq_expr p es) = all-indices es
    runs-indices (Ast.labeled_expr p l e) = runs-indices e
    runs-indices (Ast.and_expr p e) = runs-indices e
    runs-indices (Ast.not_expr p e) = runs-indices e
    runs-indices (Ast.zero_or_one_expr p e) = runs-indices e
    runs-indices (Ast.zero_or_more_expr p e) = runs-indices e
    runs-indices (Ast.one_or_more_expr p e) = runs-indices e
    runs-indices (Ast.rule_ref_expr p n) = refl
    runs-indices (Ast.and_code_expr p c ix) = refl
    runs-indices (Ast.not_code_expr p c ix) = refl
    runs-indices (Ast.lit_matcher l) = refl
    runs-indices (Ast.char_class_matcher c) = refl
    runs-indices (Ast.any_matcher a) = refl

    all-indices :
        (es : Expressions)
        → run_names (all_runs (lowers h rule es)) ≡ map (name_of h rule) (all_indices es)
    all-indices Ast.no_more = refl
    all-indices (Ast.more e es) =
        run_names-append (runs (lower h rule e)) (all_runs (lowers h rule es))
        ∙ ap₂ ◌++◌ (runs-indices e) (all-indices es)
        ∙ sym (map-append (name_of h rule) (indices e) (all_indices es))

  module _ (prints : PrintsApart h) where
    name-apart : (m n : ℕ) → m < n → name_of h rule m ≢ name_of h rule n
    name-apart m n lt e =
        let same : m ≡ n =
          prints m n (append-cancel (codes "on" ++ rule) (h.decimal m) (h.decimal n) e) in
        absurd (omega (arith, same))

    Increasing-Apart :
        (m lo hi : ℕ) (ns : List ℕ)
        → m ≤ lo
        → Increasing lo ns hi
        → Apart (name_of h rule m) (map (name_of h rule) ns)
    Increasing-Apart m lo hi [] le x = tt
    Increasing-Apart m lo hi (n ∷ ns) le (lt, x) =
        (name-apart m n (omega arith), Increasing-Apart m n hi ns (omega arith) x)

    Increasing-Distinct :
        (lo hi : ℕ) (ns : List ℕ) → Increasing lo ns hi → Distinct (map (name_of h rule) ns)
    Increasing-Distinct lo hi [] x = tt
    Increasing-Distinct lo hi (n ∷ ns) (lt, x) =
        (Increasing-Apart n n hi ns (omega arith) x, Increasing-Distinct n hi ns x)

-- The nodes of a written rule and the functions of its code blocks: the functions that the nodes name
-- are, in some order, those of the code blocks, predicates for predicates and actions for actions, and
-- no two nodes name the same function.
pub record Linked (h : Host) (rule : Text) (n : Node) (fs : List Func) : Type 0 where
  pub same : Perm (runs n) (declared h rule fs)
  pub apart : Distinct (run_names (runs n))

-- The text of a rule and the text of its functions link: if different numbers are printed differently,
-- code blocks are in braces and `TrimSpace` leaves texts in braces as they are, then `writeRule` gives
-- the writer, as far as the writer takes it, the text of a node, and `writeRuleCode` on the rule behind
-- that, with any builder, returns and gives the writer the texts of functions; each function that the
-- node names is one of these, and the other way round, predicates for predicates and actions for
-- actions, and no two code blocks of the rule name the same function.
pub write_rule-links :
    (h : Host) (r : Rule) (b c : Builder)
    → PrintsApart h
    → KeepsBraces h
    → Braced r.expr
    → (n : Node) × (fs : List Func) × (c' : Builder) × ((let b' = (write_rule h r b).1 in
        (b'.out, b'.err) ≡ feed h (rule_text h r n) (b.out, b.err)))
      × (write_rule_code h (write_rule h r b).0 c ≡ some c')
      × ((c'.out, c'.err) ≡ feed h (all_func_lines h c.cur_recv_name r.name.val fs) (c.out, c.err))
      × Linked h r.name.val n fs
unfolding write_rule_code
write_rule-links h r b c prints keeps braced =
    let (name, j, e) = rule-feed h r b b.expr_index (b.out, b.err) in
    let rule = r.name.val in
    let numbered = number 0 r.expr in
    let n = lower h rule numbered in
    let fs = functions [] numbered in
    let s = feed h (all_func_lines h c.cur_recv_name rule fs) (c.out, c.err) in
    let named = record c { rule_name = rule } in
    (
      n,
      fs,
      coded named c.args_stack s,
      ap (λ w. (w.1.out, w.1.err)) e,
      ap (λ w. write_rule_code h w.0 c) e
          ∙ ap (λ o. o >>= pop_args_set h)
              (expr-CodeEmits h keeps numbered (number-Braced 0 r.expr braced) named [] c.args_stack
                (c.out, c.err)),
      refl,
      record {
        same = lower-Perm h rule [] numbered;
        apart = rw (runs-indices h rule numbered) (
            Increasing-Distinct h rule prints 0 (0 + size r.expr) (indices numbered)
              (number-Increasing 0 r.expr));
      },
    )
