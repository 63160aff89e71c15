-- ===== src/Peg/Builder/Delivers.antt =====
-- peg/builder/builder.go: the text that a build gives to the writer, up to the first error.
use exp.Base.{◌≡◌, refl, ◌∙◌, sym, ap, Option, none, some, List, [], ◌∷◌, ◌++◌, Text, map}
use mathlib.Core.Path.{subst}
use exp.Peg.Ast.{PosValue, Rule, Grammar}
use exp.Peg.Builder.{Host, Builder}
use exp.Peg.Builder.Nodes.Emits.{placed, feed, feed-three, grammar-feed}
use exp.Peg.Builder.Nodes.{write_grammar}
use exp.Peg.Builder.Lowered.{number_rule, grammar_lines, line}
use exp.Peg.Builder.Code.{
  ◌>>=◌, write_init, write_rules_code, write_static_code, set_options, new_builder, build,
  build_parser,
}
use exp.Peg.Builder.Functions.{RulesBraced, InitBraced, init_lines, rules_func_lines}
use exp.Peg.Builder.Functions.Emits.{
  KeepsBraces, coded, slice-between, rules-CodeEmits, rules-Braced,
}

-- The texts of a generated parser: the code block in front, the grammar, the functions of its code
-- blocks and the static code.
abbrev pub program : Host → Text → Grammar → List Text
program h recv g =
    let rules = map number_rule g.rules in
    init_lines h g.init
    ++ (grammar_lines h rules ++ (rules_func_lines h recv rules ++ line h h.static_code ∷ []))

-- The name of the receiver: the last one that an option sets.
abbrev pub receiver : Text → List Text → Text
receiver recv [] = recv
receiver recv (nm ∷ opts) = receiver nm opts

module _ (h : Host) where
  -- Behind `out`, a writer is given texts up to the first one that it refuses, or all of them.
  pub data Delivered : List Text → List Text → List Text → Option Text → Type 0 where
    all : {out : List Text} → Delivered out [] out none
    taken :
        {out ts end : List Text} {err : Option Text} (t : Text)
        → h.write out t ≡ none
        → Delivered (out ++ t ∷ []) ts end err
        → Delivered out (t ∷ ts) end err
    refused :
        {out ts : List Text} (t e : Text)
        → h.write out t ≡ some e
        → Delivered out (t ∷ ts) (out ++ t ∷ []) (some e)

  feed-stuck : (ts out : List Text) (e : Text) → feed h ts (out, some e) ≡ (out, some e)
  feed-stuck [] out e = refl
  feed-stuck (t ∷ ts) out e = feed-stuck ts out e

  feed-Delivered :
      (ts out : List Text) → Delivered out ts (feed h ts (out, none)).0 (feed h ts (out, none)).1
  feed-Delivered [] out = all
  feed-Delivered (t ∷ ts) out = go (h.write out t) refl (feed-Delivered ts (out ++ t ∷ []))
    where
      go :
          (r : Option Text)
          → h.write out t ≡ r
          → Delivered
              (out ++ t ∷ [])
              ts
              (feed h ts (out ++ t ∷ [], none)).0
              (feed h ts (out ++ t ∷ [], none)).1
          → Delivered out (t ∷ ts) (feed h ts (out ++ t ∷ [], r)).0 (feed h ts (out ++ t ∷ [], r)).1
      go none ok rest = taken t ok rest
      go (some e) bad rest = rw (feed-stuck ts (out ++ t ∷ []) e) (refused t e bad)

  set_options-placed :
      (opts : List Text) (b : Builder)
      → set_options opts b ≡ record b { cur_recv_name = receiver b.cur_recv_name opts }
  set_options-placed [] b = refl
  set_options-placed (nm ∷ opts) b = set_options-placed opts (record b { cur_recv_name = nm })

  init-feed :
      (init : Option PosValue) (b : Builder)
      → InitBraced init
      → write_init h init b
        ≡ some (placed b b.expr_index (feed h (init_lines h init) (b.out, b.err)))
  init-feed none b x = refl
  init-feed (some init) b x = rw (slice-between init.val x) refl

  abbrev behind_grammar : List Rule × Builder → Option Builder
  behind_grammar r = write_rules_code h r.0 r.1 >>= λ b. some (write_static_code h b)

  build-feed :
      KeepsBraces h
      → (g : Grammar) (b : Builder) → InitBraced g.init
      → RulesBraced g.rules
      → (b' : Builder) × (build h g b ≡ some b')
        × ((b'.out, b'.err) ≡ feed h (program h b.cur_recv_name g) (b.out, b.err))
  unfolding build
  build-feed keeps g b x xs =
      let rules = map number_rule g.rules in
      let s₁ = feed h (init_lines h g.init) (b.out, b.err) in
      let (name, j, e) = grammar-feed h g.rules b b.expr_index s₁ in
      let s₂ = feed h (grammar_lines h rules) s₁ in
      let b₂ = placed (record b { rule_name = name }) j s₂ in
      let (name', e') =
        rules-CodeEmits h keeps rules (rules-Braced g.rules xs) b₂ b.args_stack s₂ in
      let code = rules_func_lines h b.cur_recv_name rules in
      let b₃ = coded (record b₂ { rule_name = name' }) b.args_stack (feed h code s₂) in
      (
        write_static_code h b₃,
        ap (λ r. r >>= λ b₁. behind_grammar (write_grammar h g.rules b₁)) (init-feed g.init b x)
            ∙ ap behind_grammar e
            ∙ ap (λ r. r >>= λ b. some (write_static_code h b)) e',
        sym (
            feed-three h (init_lines h g.init) (grammar_lines h rules) code
              (line h h.static_code ∷ []) (b.out, b.err)),
      )

  -- The builder writes the program of the grammar: if code blocks are in braces and `TrimSpace`
  -- leaves texts in braces as they are, then the build returns, and the writer was given the texts of
  -- the program one after the other: all of them, and the build returns no error, or those up to
  -- the first one that the writer refuses, whose error the build returns.
  pub build_parser-Delivered :
      KeepsBraces h
      → (g : Grammar) (opts : List Text) → InitBraced g.init
      → RulesBraced g.rules
      → (b : Builder) × (build_parser h g opts ≡ some b)
        × Delivered [] (program h (receiver new_builder.cur_recv_name opts) g) b.out b.err
  unfolding build_parser
  build_parser-Delivered keeps g opts x xs =
      let b₀ : Builder = record new_builder {
        cur_recv_name = receiver new_builder.cur_recv_name opts;
      } in
      let (b, run, fed) = build-feed keeps g b₀ x xs in
      let ts = program h (receiver new_builder.cur_recv_name opts) g in
      (
        b,
        ap (build h g) (set_options-placed opts new_builder) ∙ run,
        subst (λ r. Delivered [] ts r.0 r.1) (sym fed) (feed-Delivered ts []),
      )
