-- ===== src/Peg/Builder/Functions/Emits.antt =====
-- peg/builder/builder.go: what the functions that write code blocks give to the writer.
use exp.Base.{
  ℕ, suc, ◌+◌, ◌-◌, ◌≡◌, refl, ◌∙◌, sym, ap, Bool, true, false, some, List, [], ◌∷◌, ◌++◌, Text,
  append_assoc, append-nil, arith, map, length, take, leb, length-append,
}
use exp.Peg.Ast
use exp.Peg.Ast.{PosValue, Expression, Expressions, Rule}
use exp.Peg.Ast.CharClass.{without_last}
use exp.Peg.Builder.{Host, Builder, Sink, slice}
use exp.Peg.Builder.Nodes.Emits.{feed, feed-append}
use exp.Peg.Builder.Lowered.{size, number, numbers, number_rule}
use exp.Peg.Builder.Code.{
  ◌>>=◌, write_func, write_expr_code, write_alternatives_code, write_seq_code, write_rules_code,
  pop_args_set,
}
use exp.Peg.Builder.Functions.{
  Func, labels, all_labels, functions, alternative_functions, seq_functions, InBraces, Braced,
  AllBraced, RulesBraced, between, func_lines, all_func_lines, rules_func_lines,
}

-- The builder `b` with a stack and a sink.
abbrev pub coded : Builder → List (List Text) → Sink → Builder
coded b st s = record b { args_stack = st; out = s.0; err = s.1 }

take-before : (ts : Text) (c : ℕ) → take (length ts) (ts ++ c ∷ []) ≡ ts
take-before [] c = refl
take-before (t ∷ ts) c = ap (λ us. t ∷ us) (take-before ts c)

without_last-append : (ts : Text) (c : ℕ) → without_last (ts ++ c ∷ []) ≡ ts
unfolding without_last
without_last-append [] c = refl
without_last-append (t ∷ []) c = refl
without_last-append (t ∷ u ∷ ts) c = ap (λ us. t ∷ us) (without_last-append (u ∷ ts) c)

pub slice-between : (val : Text) → InBraces val → slice val 1 (length val - 1) ≡ some (between val)
unfolding between
slice-between val (body, e) =
    let n : length (body ++ 125 ∷ []) ≡ length body + 1 = length-append body (125 ∷ []) in
    let inside : List ℕ = body ++ 125 ∷ [] in
    let low : leb 1 (suc (length inside) - 1) ≡ true = ground (arith, n) in
    let high : leb (suc (length inside) - 1) (suc (length inside)) ≡ true = ground arith in
    let size : suc (length inside) - 1 - 1 ≡ length body = omega (arith, n) in
    rw (e, low, high, size) (ap some (take-before body 125 ∙ sym (without_last-append body 125)))

module _ (h : Host) where
  -- Texts in braces have no space around them.
  abbrev pub KeepsBraces : Type 0
  KeepsBraces = (body : Text) → h.trim_space (123 ∷ body ++ 125 ∷ []) ≡ 123 ∷ body ++ 125 ∷ []

  all-append :
      (recv rule : Text) (fs gs : List Func)
      → all_func_lines h recv rule (fs ++ gs)
        ≡ all_func_lines h recv rule fs ++ all_func_lines h recv rule gs
  all-append recv rule [] gs = refl
  all-append recv rule (f ∷ fs) gs = rw (all-append recv rule fs gs) refl

  joined-feed :
      (recv rule : Text) (fs gs : List Func) (s : Sink)
      → feed h (all_func_lines h recv rule gs) (feed h (all_func_lines h recv rule fs) s)
        ≡ feed h (all_func_lines h recv rule (fs ++ gs)) s
  joined-feed recv rule fs gs s =
      rw (all-append recv rule fs gs)
        (sym (feed-append h (all_func_lines h recv rule fs) (all_func_lines h recv rule gs) s))

  module _ (keeps : KeepsBraces) where
    func-feed :
        (is_pred : Bool) (ix : ℕ) (c : PosValue) (b : Builder) (args : List Text)
        (st : List (List Text)) (s : Sink)
        → InBraces c.val
        → write_func h is_pred ix c (coded b (args ∷ st) s)
          ≡ some (
              coded b (args ∷ st) (
                feed h
                  (func_lines h b.cur_recv_name b.rule_name
                    (record { is_pred = is_pred; ix = ix; args = args; code = c.val }))
                  s))
    unfolding write_func
    func-feed is_pred ix c b args st s (body, e) =
        let t : h.trim_space c.val ≡ c.val = rw e (keeps body) in
        rw (t, slice-between c.val (body, e)) refl

    abbrev pub CodeEmits : Expression → Type 0
    CodeEmits e =
        (b : Builder) (args : List Text) (st : List (List Text)) (s : Sink)
        → write_expr_code h e (coded b (args ∷ st) s)
          ≡ some (
              coded b ((args ++ labels e) ∷ st)
                (feed h (all_func_lines h b.cur_recv_name b.rule_name (functions args e)) s))

    no_labels :
        (b : Builder) (args : List Text) (st : List (List Text)) (s : Sink)
        → some (coded b (args ∷ st) s) ≡ some (coded b ((args ++ []) ∷ st) s)
    no_labels b args st s = rw append-nil refl

    mutual
      unfolding write_expr_code

      pub expr-CodeEmits : (e : Expression) → Braced e → CodeEmits e
      expr-CodeEmits (Ast.action_expr p e c ix) (x, y) b args st s =
          let ts = all_func_lines h b.cur_recv_name b.rule_name (functions args e) in
          ap (λ r. r >>= write_func h false ix c) (expr-CodeEmits e x b args st s)
          ∙ func-feed false ix c b (args ++ labels e) st (feed h ts s) y
          ∙ ap (λ s'. some (coded b ((args ++ labels e) ∷ st) s'))
              (joined-feed b.cur_recv_name b.rule_name (functions args e)
                (record { is_pred = false; ix = ix; args = args ++ labels e; code = c.val } ∷ []) s)
      expr-CodeEmits (Ast.and_code_expr p c ix) x b args st s =
          func-feed true ix c b args st s x ∙ no_labels b args st _
      expr-CodeEmits (Ast.not_code_expr p c ix) x b args st s =
          func-feed true ix c b args st s x ∙ no_labels b args st _
      expr-CodeEmits (Ast.labeled_expr p l e) x b args st s =
          ap (λ r. r >>= pop_args_set h) (expr-CodeEmits e x b [] ((args ++ l.val ∷ []) ∷ st) s)
      expr-CodeEmits (Ast.and_expr p e) x b args st s = expr-CodeEmits e x b args st s
      expr-CodeEmits (Ast.choice_expr p es) x b args st s =
          alternatives-CodeEmits es x b args st s ∙ no_labels b args st _
      expr-CodeEmits (Ast.not_expr p e) x b args st s = expr-CodeEmits e x b args st s
      expr-CodeEmits (Ast.one_or_more_expr p e) x b args st s = expr-CodeEmits e x b args st s
      expr-CodeEmits (Ast.seq_expr p es) x b args st s = seq-CodeEmits es x b args st s
      expr-CodeEmits (Ast.zero_or_more_expr p e) x b args st s = expr-CodeEmits e x b args st s
      expr-CodeEmits (Ast.zero_or_one_expr p e) x b args st s = expr-CodeEmits e x b args st s
      expr-CodeEmits (Ast.any_matcher a) x b args st s = no_labels b args st s
      expr-CodeEmits (Ast.char_class_matcher c) x b args st s = no_labels b args st s
      expr-CodeEmits (Ast.lit_matcher l) x b args st s = no_labels b args st s
      expr-CodeEmits (Ast.rule_ref_expr p n) x b args st s = no_labels b args st s

      alternatives-CodeEmits :
          (es : Expressions)
          → AllBraced es
          → (b : Builder) (args : List Text) (st : List (List Text)) (s : Sink)
          → write_alternatives_code h es (coded b (args ∷ st) s)
            ≡ some (
                coded b (args ∷ st) (
                  feed h
                    (all_func_lines h b.cur_recv_name b.rule_name (alternative_functions es))
                    s))
      alternatives-CodeEmits Ast.no_more x b args st s = refl
      alternatives-CodeEmits (Ast.more e es) (x, xs) b args st s =
          let fs = functions [] e in
          let ts = all_func_lines h b.cur_recv_name b.rule_name fs in
          ap (λ r. r >>= pop_args_set h >>= write_alternatives_code h es)
            (expr-CodeEmits e x b [] (args ∷ st) s)
          ∙ alternatives-CodeEmits es xs b args st (feed h ts s)
          ∙ ap (λ s'. some (coded b (args ∷ st) s'))
              (joined-feed b.cur_recv_name b.rule_name fs (alternative_functions es) s)

      seq-CodeEmits :
          (es : Expressions)
          → AllBraced es
          → (b : Builder) (args : List Text) (st : List (List Text)) (s : Sink)
          → write_seq_code h es (coded b (args ∷ st) s)
            ≡ some (
                coded b
                  ((args ++ all_labels es) ∷ st)
                  (feed h (all_func_lines h b.cur_recv_name b.rule_name (seq_functions args es)) s))
      seq-CodeEmits Ast.no_more x b args st s = no_labels b args st s
      seq-CodeEmits (Ast.more e es) (x, xs) b args st s =
          let fs = functions args e in
          let gs = seq_functions (args ++ labels e) es in
          let ts = all_func_lines h b.cur_recv_name b.rule_name fs in
          ap (λ r. r >>= write_seq_code h es) (expr-CodeEmits e x b args st s)
          ∙ seq-CodeEmits es xs b (args ++ labels e) st (feed h ts s)
          ∙ ap (λ s'. some (coded b ((args ++ labels e ++ all_labels es) ∷ st) s'))
              (joined-feed b.cur_recv_name b.rule_name fs gs s)
          ∙ ap
              (λ a. some (
                coded b (a ∷ st)
                  (feed h (all_func_lines h b.cur_recv_name b.rule_name (fs ++ gs)) s)))
              (append_assoc args (labels e) (all_labels es))

    pub rules-CodeEmits :
        (rs : List Rule)
        → RulesBraced rs
        → (b : Builder) (st : List (List Text)) (s : Sink)
        → (name : Text) × (write_rules_code h rs (coded b st s)
            ≡ some (
                coded
                  (record b { rule_name = name })
                  st
                  (feed h (rules_func_lines h b.cur_recv_name rs) s)))
    unfolding write_rules_code
    rules-CodeEmits [] x b st s = (b.rule_name, refl)
    rules-CodeEmits (r ∷ rs) (x, xs) b st s =
        let b' = record b { rule_name = r.name.val } in
        let ts = all_func_lines h b.cur_recv_name r.name.val (functions [] r.expr) in
        let (name, e) = rules-CodeEmits rs xs b' st (feed h ts s) in
        (
          name,
          ap (λ q. q >>= pop_args_set h >>= write_rules_code h rs)
                (expr-CodeEmits r.expr x b' [] st s)
              ∙ e
              ∙ ap (λ s'. some (coded (record b { rule_name = name }) st s'))
                  (sym (feed-append h ts (rules_func_lines h b.cur_recv_name rs) s)),
        )

-- Numbering keeps the code blocks.
mutual
  pub number-Braced : (k : ℕ) (e : Expression) → Braced e → Braced (number k e)
  number-Braced k (Ast.choice_expr p es) x = numbers-Braced (suc k) es x
  number-Braced k (Ast.action_expr p e c ix) (x, y) = (number-Braced (suc k) e x, y)
  number-Braced k (Ast.seq_expr p es) x = numbers-Braced (suc k) es x
  number-Braced k (Ast.labeled_expr p l e) x = number-Braced (suc k) e x
  number-Braced k (Ast.and_expr p e) x = number-Braced (suc k) e x
  number-Braced k (Ast.not_expr p e) x = number-Braced (suc k) e x
  number-Braced k (Ast.zero_or_one_expr p e) x = number-Braced (suc k) e x
  number-Braced k (Ast.zero_or_more_expr p e) x = number-Braced (suc k) e x
  number-Braced k (Ast.one_or_more_expr p e) x = number-Braced (suc k) e x
  number-Braced k (Ast.rule_ref_expr p n) x = x
  number-Braced k (Ast.and_code_expr p c ix) x = x
  number-Braced k (Ast.not_code_expr p c ix) x = x
  number-Braced k (Ast.lit_matcher l) x = x
  number-Braced k (Ast.char_class_matcher c) x = x
  number-Braced k (Ast.any_matcher a) x = x

  numbers-Braced : (k : ℕ) (es : Expressions) → AllBraced es → AllBraced (numbers k es)
  numbers-Braced k Ast.no_more x = x
  numbers-Braced k (Ast.more e es) (x, xs) =
      (number-Braced k e x, numbers-Braced (k + size e) es xs)

pub rules-Braced : (rs : List Rule) → RulesBraced rs → RulesBraced (map number_rule rs)
rules-Braced [] x = x
rules-Braced (r ∷ rs) (x, xs) = (number-Braced 0 r.expr x, rules-Braced rs xs)
