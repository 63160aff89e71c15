-- ===== src/Peg/Builder/Nodes/Emits.antt =====
-- peg/builder/builder.go: what the functions that write nodes give to the writer.
use exp.Base.{
  ℕ, suc, ◌+◌, ◌≡◌, refl, ◌∙◌, sym, ap, Bool, true, false, List, [], ◌∷◌, ◌++◌, Text, codes, arith,
  map,
}
use exp.Peg.Ast
use exp.Peg.Ast.{Pos, PosValue, LitMatcher, CharClassMatcher, Expression, Expressions, Rule}
use exp.Peg.Builder.{run_line, name_of, writelnf, Host, Builder, Sink, send, pos_line}
use exp.Peg.Builder.Nodes.{
  Writer, write_each, write_slice, class_rune, class_table, write_char_class_matcher, write_expr,
  write_exprs, write_rule, write_rules, write_grammar, write_field, write_inner, write_nodes,
  no_nodes, display_name,
}
use exp.Peg.Builder.Lowered.{
  size, sizes, number, numbers, number_rule, lower, lowers, lines, all_lines, rule_lines,
  rules_lines, grammar_lines, field, head, flag_field, list_field, literal_lines, lower_literal,
  any_matcher, and_code_expr, not_code_expr, inner, close, lower_rune, rune_text, slice_field,
  class_lines, line, lower_class,
}

-- The builder `b` at an index and a sink.
abbrev pub placed : Builder → ℕ → Sink → Builder
placed b k s = record b { expr_index = k; out = s.0; err = s.1 }

module _ (h : Host) where
  -- Texts to the writer, one after the other.
  abbrev pub feed : List Text → Sink → Sink
  feed [] s = s
  feed (t ∷ ts) s = feed ts (send h t s)

  pub feed-append : (ts us : List Text) (s : Sink) → feed (ts ++ us) s ≡ feed us (feed ts s)
  feed-append [] us s = refl
  feed-append (t ∷ ts) us s = feed-append ts us (send h t s)

  pub feed-three :
      (ts us vs ws : List Text) (s : Sink)
      → feed (ts ++ (us ++ (vs ++ ws))) s ≡ feed ws (feed vs (feed us (feed ts s)))
  feed-three ts us vs ws s =
      feed-append ts (us ++ (vs ++ ws)) s
      ∙ feed-append us (vs ++ ws) (feed ts s)
      ∙ feed-append vs ws (feed us (feed ts s))

  -- A function writes texts that depend on the rule and the index, numbers its node, and moves the
  -- index.
  abbrev pub Emits : {A : Type 0} → Writer A → ℕ → (ℕ → A) → (Text → ℕ → List Text) → Type 0
  Emits rec n value texts =
      (b : Builder) (k : ℕ) (s : Sink)
      → rec (placed b k s) ≡ (value k, placed b (k + n) (feed (texts b.rule_name k) s))

  each-feed {ℓ} :
      {A : Type ℓ} (f : A → Text) (xs : List A) (b : Builder) (k : ℕ) (s : Sink)
      → write_each h f xs (placed b k s) ≡ placed b k (feed (map f xs) s)
  each-feed f [] b k s = refl
  each-feed f (x ∷ xs) b k s = each-feed f xs b k (send h (f x) s)

  slice-feed {ℓ} :
      {A : Type ℓ} (open_ : Text) (f : A → Text) (xs : List A) (b : Builder) (k : ℕ) (s : Sink)
      → write_slice h open_ f xs (placed b k s) ≡ placed b k (feed (slice_field h open_ f xs) s)
  slice-feed open_ f [] b k s = refl
  slice-feed open_ f (x ∷ xs) b k s =
      rw (each-feed f xs b k (send h (f x) (send h open_ s))) (
        rw (feed-append (map f xs) (line h (codes "},") ∷ []) (send h (f x) (send h open_ s))) refl)

  map-lower :
      (ignore_case : Bool) (xs : List ℕ)
      → map (class_rune h ignore_case) xs ≡ map (rune_text h) (map (lower_rune h ignore_case) xs)
  map-lower ignore_case [] = refl
  map-lower true (x ∷ xs) = ap (λ ts. class_rune h true x ∷ ts) (map-lower true xs)
  map-lower false (x ∷ xs) = ap (λ ts. class_rune h false x ∷ ts) (map-lower false xs)

  slice-lower :
      (ignore_case : Bool) (open_ : Text) (xs : List ℕ)
      → slice_field h open_ (class_rune h ignore_case) xs
        ≡ slice_field h open_ (rune_text h) (map (lower_rune h ignore_case) xs)
  slice-lower ignore_case open_ [] = refl
  slice-lower ignore_case open_ (x ∷ xs) =
      ap (λ ts. open_ ∷ ts ++ close h) (map-lower ignore_case (x ∷ xs))

  field-feed :
      (name t : Text) (b : Builder) (k : ℕ) (s : Sink)
      → write_field h name t (placed b k s) ≡ placed b k (feed (field h name t) s)
  field-feed name [] b k s = refl
  field-feed name (c ∷ cs) b k s = refl

  inner-Emits :
      {A : Type 0} (rec : Writer A) (n : ℕ) (value : ℕ → A) (texts : Text → ℕ → List Text)
      → Emits rec n value texts
      → Emits (write_inner h rec) n value (λ rule k. inner h (texts rule k))
  inner-Emits rec n value texts emits b k s =
      rw
        (
          emits b k (send h (codes "\texpr: ") s),
          feed-append (texts b.rule_name k) (close h) (send h (codes "\texpr: ") s),
        )
        refl

  abbrev ExprEmits : Expression → Type 0
  ExprEmits e =
      Emits (write_expr h e) (size e) (λ k. number k e)
        (λ rule k. lines h (lower h rule (number k e)))

  abbrev ExprsEmits : Expressions → Type 0
  ExprsEmits es =
      Emits (write_exprs h es) (sizes es) (λ k. numbers k es)
        (λ rule k. all_lines h (lowers h rule (numbers k es)))

  sub-Emits :
      (e : Expression)
      → ExprEmits e
      → (b : Builder) (k : ℕ) (s : Sink)
      → write_inner h (write_expr h e) (placed b (suc k) s) ≡ (
        number (suc k) e,
        placed b
            (k + suc (size e))
            (feed (inner h (lines h (lower h b.rule_name (number (suc k) e)))) s),
      )
  sub-Emits e emits b k s =
      let i : k + suc (size e) ≡ suc k + size e = omega arith in
      rw i (
        inner-Emits (write_expr h e) (size e) (λ k. number k e)
          (λ rule k. lines h (lower h rule (number k e))) emits b (suc k) s)

  -- The alternatives of a choice or the expressions of a sequence.
  list-Emits :
      (name : Text) (es : Expressions)
      → ExprsEmits es
      → (b : Builder) (k : ℕ) (s : Sink)
      → write_nodes h name (no_nodes es) (write_exprs h es) (placed b (suc k) s) ≡ (
        numbers (suc k) es,
        placed b (k + suc (sizes es)) (
            feed
              (list_field h name
                (lowers h b.rule_name (numbers (suc k) es))
                (all_lines h (lowers h b.rule_name (numbers (suc k) es))))
              s),
      )
  list-Emits name Ast.no_more emits b k s = let i : k + 1 ≡ suc k = omega arith in rw i refl
  list-Emits name (Ast.more e es) emits b k s =
      let i : k + suc (sizes (Ast.more e es)) ≡ suc k + sizes (Ast.more e es) = omega arith in
      let open_ = send h (line h (codes "\t" ++ name ++ codes ": []interface{}{")) s in
      rw i (
        rw
          (
            emits b (suc k) open_,
            feed-append (all_lines h (lowers h b.rule_name (numbers (suc k) (Ast.more e es))))
                (line h (codes "\t},") ∷ []) open_,
          )
          refl)

  abbrev closed_node : (Expressions → Expression) → Expressions × Builder → Expression × Builder
  closed_node node r = (node r.0, writelnf h (codes "},") r.1)

  list-node :
      (node : Expressions → Expression) (name : Text) (es : Expressions)
      → ExprsEmits es
      → (b : Builder) (k : ℕ) (s : Sink)
      → closed_node node (write_nodes h name (no_nodes es) (write_exprs h es) (placed b (suc k) s))
        ≡ (
          node (numbers (suc k) es),
          placed b (k + suc (sizes es)) (
              feed
                (list_field h name
                    (lowers h b.rule_name (numbers (suc k) es))
                    (all_lines h (lowers h b.rule_name (numbers (suc k) es)))
                  ++ close h)
                s),
        )
  list-node node name es emits b k s =
      let ns = lowers h b.rule_name (numbers (suc k) es) in
      rw
        (
          list-Emits name es emits b k s,
          feed-append (list_field h name ns (all_lines h ns)) (close h) s,
        )
        refl

  index-leaf : (b : Builder) (k : ℕ) (s : Sink) → placed b (suc k) s ≡ placed b (k + 1) s
  index-leaf b k s = let i : k + 1 ≡ suc k = omega arith in rw i refl

  class-feed :
      (c : CharClassMatcher) (b : Builder) (k : ℕ) (s : Sink)
      → write_char_class_matcher h c (placed b k s)
        ≡ placed b k (feed (class_lines h (lower_class h c)) s)
  class-feed c b k s =
      let pre =
        head h (codes "charClassMatcher") c.p
        ++ line h (codes "\tval: " ++ h.quote c.val ++ codes ",") ∷ [] in
      let s₀ = feed pre s in
      let chars = slice_field h (codes "\tchars: []rune{") (class_rune h c.ignore_case) c.chars in
      let ranges =
        slice_field h (codes "\tranges: []rune{") (class_rune h c.ignore_case) c.ranges in
      let classes =
        slice_field h (codes "\tclasses: []*unicode.RangeTable{") (class_table h)
          c.unicode_classes in
      let flags =
        flag_field h (codes "ignoreCase") c.ignore_case
        ++ flag_field h (codes "inverted") c.inverted
        ++ close h in
      rw
        (
          sym (slice-lower c.ignore_case (codes "\tchars: []rune{") c.chars),
          sym (slice-lower c.ignore_case (codes "\tranges: []rune{") c.ranges),
          slice-feed (codes "\tchars: []rune{") (class_rune h c.ignore_case) c.chars b k s₀,
          slice-feed (codes "\tranges: []rune{") (class_rune h c.ignore_case) c.ranges b k
              (feed chars s₀),
          slice-feed (codes "\tclasses: []*unicode.RangeTable{") (class_table h) c.unicode_classes b
              k (feed ranges (feed chars s₀)),
        )
        (ap (placed b k) (sym (feed-three chars ranges classes flags s₀)))

  mutual
    unfolding write_expr

    pub expr-Emits : (e : Expression) → ExprEmits e
    expr-Emits (Ast.and_expr p e) b k s =
        ap (λ r. (Ast.and_expr p r.0, r.1))
          (sub-Emits e (expr-Emits e) b k (feed (head h (codes "andExpr") p) s))
    expr-Emits (Ast.not_expr p e) b k s =
        ap (λ r. (Ast.not_expr p r.0, r.1))
          (sub-Emits e (expr-Emits e) b k (feed (head h (codes "notExpr") p) s))
    expr-Emits (Ast.zero_or_one_expr p e) b k s =
        ap (λ r. (Ast.zero_or_one_expr p r.0, r.1))
          (sub-Emits e (expr-Emits e) b k (feed (head h (codes "zeroOrOneExpr") p) s))
    expr-Emits (Ast.zero_or_more_expr p e) b k s =
        ap (λ r. (Ast.zero_or_more_expr p r.0, r.1))
          (sub-Emits e (expr-Emits e) b k (feed (head h (codes "zeroOrMoreExpr") p) s))
    expr-Emits (Ast.one_or_more_expr p e) b k s =
        ap (λ r. (Ast.one_or_more_expr p r.0, r.1))
          (sub-Emits e (expr-Emits e) b k (feed (head h (codes "oneOrMoreExpr") p) s))
    expr-Emits (Ast.action_expr p e c ix) b k s =
        ap (λ r. (Ast.action_expr p r.0 c (suc k), r.1))
          (sub-Emits e (expr-Emits e) b k (
            send h (line h (run_line h (name_of h b.rule_name (suc k))))
              (feed (head h (codes "actionExpr") p) s)))
    expr-Emits (Ast.labeled_expr p l e) b k s =
        let s' = feed (head h (codes "labeledExpr") p) s in
        let ts = inner h (lines h (lower h b.rule_name (number (suc k) e))) in
        rw
          (
            field-feed (codes "label") l.val b (suc k) s',
            feed-append (field h (codes "label") l.val) ts s',
          )
          (ap (λ r. (Ast.labeled_expr p l r.0, r.1))
            (sub-Emits e (expr-Emits e) b k (feed (field h (codes "label") l.val) s')))
    expr-Emits (Ast.choice_expr p es) b k s =
        list-node (Ast.choice_expr p) (codes "alternatives") es (exprs-Emits es) b k
          (feed (head h (codes "choiceExpr") p) s)
    expr-Emits (Ast.seq_expr p es) b k s =
        list-node (Ast.seq_expr p) (codes "exprs") es (exprs-Emits es) b k
          (feed (head h (codes "seqExpr") p) s)
    expr-Emits (Ast.lit_matcher l) b k s =
        ap (λ b'. (Ast.lit_matcher l, b'))
          (index-leaf b k (feed (literal_lines h (lower_literal h l)) s))
    expr-Emits (Ast.any_matcher a) b k s =
        ap (λ b'. (Ast.any_matcher a, b')) (index-leaf b k (feed (lines h (any_matcher a.p)) s))
    expr-Emits (Ast.and_code_expr p c ix) b k s =
        ap (λ b'. (Ast.and_code_expr p c (suc k), b'))
          (index-leaf b k (feed (lines h (and_code_expr p (name_of h b.rule_name (suc k)))) s))
    expr-Emits (Ast.not_code_expr p c ix) b k s =
        ap (λ b'. (Ast.not_code_expr p c (suc k), b'))
          (index-leaf b k (feed (lines h (not_code_expr p (name_of h b.rule_name (suc k)))) s))
    expr-Emits (Ast.rule_ref_expr p n) b k s =
        let s' = feed (head h (codes "ruleRefExpr") p) s in
        let name = field h (codes "name") n.val in
        rw (field-feed (codes "name") n.val b (suc k) s', feed-append name (close h) s')
          (ap (λ b'. (Ast.rule_ref_expr p n, b')) (index-leaf b k (feed (close h) (feed name s'))))
    expr-Emits (Ast.char_class_matcher c) b k s =
        ap (λ b'. (Ast.char_class_matcher c, b'))
          (class-feed c b (suc k) s ∙ index-leaf b k (feed (class_lines h (lower_class h c)) s))

    exprs-Emits : (es : Expressions) → ExprsEmits es
    exprs-Emits Ast.no_more b k s = let i : k + 0 ≡ k = omega arith in rw i refl
    exprs-Emits (Ast.more e es) b k s =
        let i : k + (size e + sizes es) ≡ k + size e + sizes es = omega arith in
        let ts = lines h (lower h b.rule_name (number k e)) in
        rw
          (
            i,
            expr-Emits e b k s,
            exprs-Emits es b (k + size e) (feed ts s),
            feed-append ts (all_lines h (lowers h b.rule_name (numbers (k + size e) es))) s,
          )
          refl

  pub rule-feed :
      (r : Rule) (b : Builder) (k : ℕ) (s : Sink)
      → (name : Text) × (j : ℕ) × (write_rule h r (placed b k s) ≡ (
        number_rule r,
        placed (record b { rule_name = name }) j (feed (rule_lines h (number_rule r)) s),
      ))
  unfolding write_rule
  rule-feed r b k s =
      let b' = record b { rule_name = r.name.val } in
      let s₁ =
        feed
          (line h (codes "{") ∷ line h (codes "\tname: " ++ h.quote r.name.val ++ codes ",") ∷ [])
          s in
      let display = field h (codes "displayName") (display_name r.display_name) in
      let rest =
        line h (pos_line h r.p) ∷ inner h (lines h (lower h r.name.val (number 0 r.expr))) in
      (
        r.name.val,
        0 + size r.expr,
        rw
            (
              field-feed (codes "displayName") (display_name r.display_name) b' 0 s₁,
              feed-append display rest s₁,
            )
            (ap (λ w. (record r { expr = w.0 }, w.1))
              (inner-Emits (write_expr h r.expr) (size r.expr) (λ k. number k r.expr)
                (λ rule k. lines h (lower h rule (number k r.expr))) (expr-Emits r.expr) b' 0
                (send h (line h (pos_line h r.p)) (feed display s₁)))),
      )

  rules-feed :
      (rs : List Rule) (b : Builder) (k : ℕ) (s : Sink)
      → (name : Text) × (j : ℕ) × (write_rules h rs (placed b k s) ≡ (
        map number_rule rs,
        placed (record b { rule_name = name }) j (feed (rules_lines h (map number_rule rs)) s),
      ))
  unfolding write_rules
  rules-feed [] b k s = (b.rule_name, k, refl)
  rules-feed (r ∷ rs) b k s =
      let (name, j, e) = rule-feed r b k s in
      let ts = rule_lines h (number_rule r) in
      let (name', j', e') = rules-feed rs (record b { rule_name = name }) j (feed ts s) in
      (
        name',
        j',
        ap (λ w. let (rs', b₂) = write_rules h rs w.1 in (w.0 ∷ rs', b₂)) e
            ∙ ap (λ w. (number_rule r ∷ w.0, w.1)) e'
            ∙ ap
                (λ s'. (
                  number_rule r ∷ map number_rule rs,
                  placed (record b { rule_name = name' }) j' s',
                ))
                (sym (feed-append ts (rules_lines h (map number_rule rs)) s)),
      )

  pub grammar-feed :
      (rs : List Rule) (b : Builder) (k : ℕ) (s : Sink)
      → (name : Text) × (j : ℕ) × (write_grammar h rs (placed b k s) ≡ (
        map number_rule rs,
        placed (record b { rule_name = name }) j (feed (grammar_lines h (map number_rule rs)) s),
      ))
  unfolding write_grammar
  grammar-feed rs b k s =
      let s₁ =
        feed (line h (codes "var g = &grammar {") ∷ line h (codes "\trules: []*rule{") ∷ []) s in
      let (name, j, e) = rules-feed rs b k s₁ in
      let end = line h (codes "\t},") ∷ line h (codes "}") ∷ [] in
      (
        name,
        j,
        ap (λ w. (w.0, writelnf h (codes "}") (writelnf h (codes "\t},") w.1))) e
            ∙ ap (λ s'. (map number_rule rs, placed (record b { rule_name = name }) j s'))
                (sym (feed-append (rules_lines h (map number_rule rs)) end s₁)),
      )
