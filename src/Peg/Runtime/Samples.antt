-- ===== src/Peg/Runtime/Samples.antt =====
-- peg/builder/static_code.go: the theorems at concrete grammars and inputs, in ASCII.
use exp.Base.{
  ℕ, ◌+◌, ◌≡◌, ◌≢◌, refl, Bool, true, false, Option, none, some, List, [], ◌∷◌, Text, codes,
  text_eq, ◌==◌, ◌<◌, ◌≤◌, length, arith, if◌then◌else◌, drop,
}
use exp.Peg.Runtime.Syntax
use exp.Peg.Runtime.Syntax.{Position, LitMatcher, CharClassMatcher, Expr, end, more, Rule, Grammar}
use exp.Peg.Runtime.Errors.{ErrList, dedupe, is_set, err}
use exp.Peg.Runtime.Errors.Dedupe.{dedupe-distinct, AllDistinct, Thinned, messages}
use exp.Peg.Runtime.State.{
  Value, nil, str, host, Parser, returned, Env, rune_error, DecodesUtf8, read, slice, push_v, pop_v,
}
use exp.Peg.Runtime.Matchers.{
  Outcome, ended, panicked, out_of_fuel, miss, folded, in_class, parse_lit_matcher,
}
use exp.Peg.Runtime.Engine.{parse_expr, parse_rule}
use exp.Peg.Runtime.Parse.{finished, parse}
use exp.Peg.Runtime.Parse.Verdict.{started, parse-no_error}
use exp.Peg.Runtime.Semantics.{Parses}
use exp.Peg.Runtime.Semantics.Sound.{parse_expr-Parses}
use exp.Peg.Runtime.Semantics.Whole.{table, parse-Parses}
use exp.Peg.Runtime.EndOfInput.{AtEnd, inverted_class-loops, any_matcher-value}
use exp.Peg.Runtime.Literals.{
  after, upcoming, spelled, parse_lit_matcher-match, parse_lit_matcher-no_match,
}
use exp.Peg.Runtime.Frame.{Located, Framed, Ready, WellBuilt}
use exp.Peg.Runtime.Frame.Run.{parse_expr-Framed, no_match-restores, parse_expr-no_panic}

abbrev decode : Text → ℕ × ℕ
decode [] = (rune_error, 0)
decode (b ∷ bs) = (b, 1)

abbrev lower : ℕ → ℕ
lower r = if r == 65 then 97 else if r == 66 then 98 else r

-- The letters A and B have lower case, no class has a member, and code block `k` returns `k`.
abbrev ascii : Env
ascii = record {
  decode_rune = decode;
  encode_rune = λ r. r ∷ [];
  to_lower = lower;
  unicode_is = λ c r. false;
  format_int = λ n. (48 + n) ∷ [];
  index_panic = codes "index out of range";
  slice_panic = codes "slice bounds out of range";
  free_slots = λ n. n;
  run_action = λ k cur args. returned (host k) none cur;
  run_pred = λ k cur args. returned true none cur;
}

decode-pos : (b : ℕ) (bs : Text) → 0 < (decode (b ∷ bs)).1
decode-pos b bs = omega arith

decode-le : (bs : Text) → (decode bs).1 ≤ length bs
decode-le [] = omega arith
decode-le (b ∷ bs) = omega arith

ascii-DecodesUtf8 : DecodesUtf8 ascii
ascii-DecodesUtf8 = record { decode_end = refl; width_pos = decode-pos; width_le = decode-le }

abbrev origin : Position
origin = record { line = 1; col = 1; offset = 0 }

abbrev lit : Text → Expr
lit t = Syntax.lit_matcher (record { pos = origin; val = t; ignore_case = false })

-- A rule `b = "b"`, and expressions that refer to it.
abbrev rule_b : Rule
rule_b = record { pos = origin; name = codes "b"; display_name = []; expr = lit (codes "b") }

abbrev b_ref : Expr
b_ref = Syntax.rule_ref_expr origin (codes "b")

-- `"a" x:b* { … }`
abbrev action : Expr
action =
    Syntax.action_expr origin
      (Syntax.seq_expr origin (
        more (lit (codes "a")) (
          more (Syntax.labeled_expr origin (codes "x") (Syntax.zero_or_more_expr origin b_ref))
            end)))
      7

abbrev rules : Text → Option Rule
rules k = if text_eq k (codes "b") then some rule_b else none

-- The parser at an offset of an input, with one argument map.
abbrev at : Text → ℕ → Parser
at input n = record {
  filename = codes "f";
  pt = record {
    position = record { line = 1; col = n; offset = n };
    rn = (decode (drop n input)).0;
    w = (decode (drop n input)).1;
  };
  cur = record { pos = origin; text = [] };
  input = input;
  errs = [];
  rules = rules;
  vstack = record { live = [] ∷ []; spare = [] };
  rstack = rule_b ∷ [];
}

abbrev value_of : Outcome → Value
value_of (ended v ok p) = v
value_of _ = nil

abbrev parser_of : Parser → Outcome → Parser
parser_of q (ended v ok p) = p
parser_of q _ = q

abbrev abbc : Parser
abbc = at (codes "abbc") 0

abbc-Located : Located ascii abbc
abbc-Located = record { in_input = omega arith; decoded = refl }

abbrev after_action : Parser
after_action = parser_of abbc (parse_expr ascii 20 action abbc)

action_run : parse_expr ascii 20 action abbc ≡ ended (host 7) true after_action
unfolding parse_expr read push_v pop_v slice
action_run = refl

parse_expr-Framed_example : Framed ascii abbc after_action
parse_expr-Framed_example =
    parse_expr-Framed ascii ascii-DecodesUtf8 20 action abbc after_action (host 7) abbc-Located refl
      true action_run

parse_expr-Parses_example : Parses ascii abbc.input abbc.rules action 0 (some 3)
unfolding parse_expr read push_v pop_v slice
parse_expr-Parses_example =
    parse_expr-Parses ascii 20 action abbc after_action (host 7) true ascii-DecodesUtf8 abbc-Located
      action_run

-- `"a" x:b* { … }` on a text that goes on as the action does, then a literal that is not there.
abbrev failing : Expr
failing = Syntax.seq_expr origin (more action (more (lit (codes "d")) end))

abbrev after_failing : Parser
after_failing = parser_of abbc (parse_expr ascii 20 failing abbc)

failing_run : parse_expr ascii 20 failing abbc ≡ ended nil false after_failing
unfolding parse_expr read push_v pop_v slice
failing_run = refl

no_match-restores_example :
    (after_failing.pt.position.offset ≡ abbc.pt.position.offset)
    × (after_failing.pt.rn ≡ abbc.pt.rn)
    × (after_failing.pt.w ≡ abbc.pt.w)
no_match-restores_example =
    no_match-restores ascii ascii-DecodesUtf8 20 failing abbc after_failing nil abbc-Located refl
      failing_run

rules-WellBuilt :
    (name : Text) (rule : Rule) (b : Bool)
    → (if b then some rule_b else none) ≡ some rule
    → WellBuilt ascii ⊥ rule.expr
rules-WellBuilt name rule true h = let same : rule ≡ rule_b = cc in rw same tt
rules-WellBuilt name rule false h = cc

abbc-Ready : Ready ascii ⊥ abbc
abbc-Ready = record {
  place = abbc-Located;
  args = ([], [], refl);
  built = λ name rule h. rules-WellBuilt name rule (text_eq name (codes "b")) h;
}

action-WellBuilt : WellBuilt ascii ⊥ action
action-WellBuilt = ((tt, ((λ h. cc), tt)), λ cur args t h. cc)

parse_expr-no_panic_example :
    ¬ (parse_expr ascii 20 action abbc ≡ panicked (codes "slice bounds out of range") abbc)
parse_expr-no_panic_example =
    parse_expr-no_panic ascii 20 action abbc abbc (codes "slice bounds out of range")
      ascii-DecodesUtf8 action-WellBuilt abbc-Ready

abbrev not_a : CharClassMatcher
not_a = record {
  pos = origin;
  val = codes "[^a]";
  chars = codes "a";
  ranges = [];
  classes = [];
  ignore_case = false;
  inverted = true;
}

abbrev abbc_end : Parser
abbc_end = at (codes "abbc") 4

abbc_end-AtEnd : AtEnd abbc_end
abbc_end-AtEnd = record { offset_end = refl; rune_end = refl; width_end = refl }

not_a-miss : in_class ascii not_a (folded ascii false rune_error) ≡ miss
unfolding in_class folded
not_a-miss = refl

inverted_class-loops_example :
    parse_expr ascii 100
      (Syntax.zero_or_more_expr origin (Syntax.char_class_matcher not_a))
      abbc_end
    ≡ out_of_fuel
inverted_class-loops_example =
    inverted_class-loops ascii ascii-DecodesUtf8 100 origin not_a abbc_end abbc_end-AtEnd refl
      not_a-miss

any_matcher-value_example :
    (q : Parser) × (parse_expr ascii 1 (Syntax.any_matcher origin) abbc
      ≡ ended (str (codes "b")) true q)
    × (q.pt.position.offset ≡ 1)
any_matcher-value_example =
    any_matcher-value ascii ascii-DecodesUtf8 0 origin abbc (λ h. omega arith) (omega arith)

-- The literal `"AB"i`, in lower case as the builder writes it.
abbrev ab : LitMatcher
ab = record { pos = origin; val = codes "ab"; ignore_case = true }

abbrev ab_input : Parser
ab_input = at (codes "Abc") 0

ab_upcoming : upcoming ascii ascii-DecodesUtf8 true 2 ab_input ≡ codes "ab"
unfolding folded read
ab_upcoming = refl

parse_lit_matcher-match_example :
    parse_lit_matcher ascii ab ab_input
    ≡ ended
        (str (spelled ascii ascii-DecodesUtf8 2 ab_input))
        true
        (after ascii ascii-DecodesUtf8 2 ab_input)
parse_lit_matcher-match_example =
    parse_lit_matcher-match ascii ascii-DecodesUtf8 ab ab_input
      (record { in_input = omega arith; decoded = refl }) ab_upcoming

heads : (x y : ℕ) (xs ys : List ℕ) → x ∷ xs ≡ y ∷ ys → x ≡ y
heads x y xs ys h = cc

abb_not_ab : upcoming ascii ascii-DecodesUtf8 true 2 abbc_end ≢ codes "ab"
unfolding folded read
abb_not_ab h =
    let e : rune_error ≡ 97 = heads rune_error 97 (rune_error ∷ []) (codes "b") h in omega arith

parse_lit_matcher-no_match_example :
    (q : Parser) × (parse_lit_matcher ascii ab abbc_end ≡ ended nil false q)
    × (q.pt.position.offset ≡ 4)
parse_lit_matcher-no_match_example =
    parse_lit_matcher-no_match ascii ascii-DecodesUtf8 ab abbc_end
      (record { in_input = omega arith; decoded = refl }) abb_not_ab

-- Three errors, of which two have the same message.
abbrev errors : ErrList
errors =
    record { inner = codes "x"; prefix = codes "1" }
    ∷ record { inner = codes "y"; prefix = codes "1" }
    ∷ record { inner = codes "x"; prefix = codes "1" }
    ∷ []

dedupe-distinct_example :
    AllDistinct (dedupe errors)
    × ((m : Text) → is_set m (messages (dedupe errors)) ≡ is_set m (messages errors))
    × Thinned (dedupe errors) errors
dedupe-distinct_example = dedupe-distinct errors

-- A grammar of one rule, the literal "b", on the input "b".
abbrev grammar_b : Grammar
grammar_b = record { pos = origin; rules = rule_b ∷ [] }

b_run : parse ascii 5 [] (codes "b") grammar_b ≡ finished (str (codes "b")) []
unfolding parse parse_expr read push_v pop_v err
b_run = refl

parse-no_error_example :
    (r : Rule) × (rs : List Rule) × (p : Parser) × (grammar_b.rules ≡ r ∷ rs)
    × (parse_rule ascii (parse_expr ascii 5) r (started ascii [] (codes "b") grammar_b.rules)
        ≡ ended (str (codes "b")) true p)
    × (p.errs ≡ [])
parse-no_error_example = parse-no_error ascii 5 [] (codes "b") grammar_b (str (codes "b")) b_run

parse-Parses_example :
    (r : Rule) × (rs : List Rule) × (o : ℕ) × (grammar_b.rules ≡ r ∷ rs)
    × Parses ascii (codes "b") (table grammar_b.rules) r.expr 0 (some o)
parse-Parses_example =
    parse-Parses ascii 5 [] (codes "b") grammar_b (str (codes "b")) ascii-DecodesUtf8 b_run
