-- ===== src/Peg/Builder/Samples.antt =====
-- peg/builder/builder.go: the theorems at a small grammar, with a writer that refuses the 20th text.
use exp.Base.{
  ℕ, ◌≡◌, refl, ap, Bool, true, false, Option, none, some, List, [], ◌∷◌, ◌++◌, Text, codes,
  replicate, length, ltb, if◌then◌else◌, arith, zero, suc,
}
use exp.Peg.Ast
use exp.Peg.Ast.{Pos, PosValue, Expression, Rule, Grammar}
use exp.Peg.Builder.{Host, Builder}
use exp.Peg.Builder.Code.{new_builder, build_parser}
use exp.Peg.Builder.Nodes.{write_expr, write_rule}
use exp.Peg.Builder.Functions.Emits.{KeepsBraces}
use exp.Peg.Builder.Delivers.{Delivered, program, build_parser-Delivered}
use exp.Peg.Builder.Links.{PrintsApart, Linked, write_rule-links}
use exp.Peg.Builder.Functions.{Func, Braced, all_func_lines}
use exp.Peg.Builder.Nodes.Emits.{feed}
use exp.Peg.Builder.Code.{write_rule_code}
use exp.Peg.Builder.Lowered.{Node, rule_text}
use exp.Peg.Builder.Indices.{Increasing, write_expr-Increasing}

abbrev concat : List Text → Text
concat [] = []
concat (t ∷ ts) = t ++ concat ts

-- Numbers are printed in strokes.
abbrev strokes : ℕ → Text
strokes n = replicate n 49

abbrev host : Host
host = record {
  quote = λ t. 34 ∷ t ++ 34 ∷ [];
  quote_rune = λ r. 39 ∷ r ∷ 39 ∷ [];
  decimal = strokes;
  rune_to_lower = λ r. if ltb r 97 then 122 else r;
  to_lower = λ t. t;
  trim_space = λ t. t;
  static_code = codes "// static";
  write = λ out t. if ltb (length out) 19 then none else some (codes "disk full");
}

abbrev patient : Host
patient = record host { write = λ out t. none }

abbrev at_line : ℕ → Pos
at_line n = record { filename = codes "g"; line = n; col = 1; off = 0 }

abbrev word : Text → PosValue
word t = record { p = at_line 1; val = t }

-- A <- x:'a'i { return x, nil } / &{ return true, nil } A
abbrev rule_a : Rule
rule_a = record {
  p = at_line 1;
  name = word (codes "A");
  display_name = none;
  expr = Ast.choice_expr (at_line 1) (
      Ast.more
        (Ast.action_expr (at_line 1)
          (Ast.labeled_expr (at_line 1) (word (codes "x"))
            (Ast.lit_matcher (record { p = at_line 1; val = codes "a"; ignore_case = true })))
          (word (codes "{ return x, nil }")) 0)
        (Ast.more
          (Ast.seq_expr (at_line 1) (
            Ast.more (Ast.and_code_expr (at_line 1) (word (codes "{ return true, nil }")) 0)
              (Ast.more (Ast.rule_ref_expr (at_line 1) (word (codes "A"))) Ast.no_more)))
          Ast.no_more));
}

abbrev grammar : Grammar
grammar = record { p = at_line 1; init = some (word (codes "{package a}")); rules = rule_a ∷ [] }

abbrev shown : Option Builder → List Text
shown none = []
shown (some b) = b.out

abbrev whole : Text
whole = concat (shown (build_parser patient grammar (codes "p" ∷ [])))

host-KeepsBraces : KeepsBraces host
host-KeepsBraces body = refl

rule_a-Braced : Braced rule_a.expr
rule_a-Braced =
    ((tt, (codes " return x, nil ", refl)), (((codes " return true, nil ", refl), (tt, tt)), tt))

-- The 20th text is refused.
build_parser-Delivered_example :
    (b : Builder) × (build_parser host grammar (codes "p" ∷ []) ≡ some b)
    × Delivered host [] (program host (codes "p") grammar) b.out b.err
build_parser-Delivered_example =
    build_parser-Delivered host host-KeepsBraces grammar (codes "p" ∷ []) (codes "package a", refl)
      (rule_a-Braced, tt)

write_expr-Increasing_example : Increasing 4 (6 ∷ 10 ∷ []) 11
unfolding write_expr
write_expr-Increasing_example =
    write_expr-Increasing host rule_a.expr (record new_builder { expr_index = 4 })

strokes-length : (n : ℕ) → length (strokes n) ≡ n
strokes-length zero = refl
strokes-length (suc n) = omega (arith, strokes-length n)

strokes-PrintsApart : PrintsApart host
strokes-PrintsApart m n e =
    let same : length (strokes m) ≡ length (strokes n) = ap length e in
    omega (arith, same, strokes-length m, strokes-length n)

abbrev sample_functions : List (Bool × Text)
sample_functions = (false, codes "onA11") ∷ (true, codes "onA111111") ∷ []

write_rule-links_example :
    (n : Node) × (fs : List Func) × (c' : Builder) × ((let b' =
        (write_rule host rule_a new_builder).1 in
      (b'.out, b'.err) ≡ feed host (rule_text host rule_a n) ([], none)))
    × (write_rule_code host (write_rule host rule_a new_builder).0 new_builder ≡ some c')
    × ((c'.out, c'.err) ≡ feed host (all_func_lines host (codes "c") (codes "A") fs) ([], none))
    × Linked host (codes "A") n fs
write_rule-links_example =
    write_rule-links host rule_a new_builder new_builder strokes-PrintsApart host-KeepsBraces
      rule_a-Braced
