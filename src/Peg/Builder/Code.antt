-- ===== src/Peg/Builder/Code.antt =====
-- peg/builder/builder.go: the functions that write the code blocks, and the whole build.
use exp.Base.{
  ℕ, ◌-◌, Bool, true, false, Option, none, some, List, [], ◌∷◌, ◌++◌, Text, codes, ◌==◌,
  if◌then◌else◌, length,
}
use exp.Peg.Ast
use exp.Peg.Ast.{PosValue, Expression, Expressions, Rule, Grammar}
use exp.Peg.Builder.{Host, Builder, writelnf, func_name, slice}
use exp.Peg.Builder.Nodes.{write_grammar}

infixl 5 ◌>>=◌
abbrev pub ◌>>=◌ : {A B : Type 0} → Option A → (A → Option B) → Option B
none >>= f = none
some a >>= f = f a

-- `val = val[1:]` behind a newline, and `val = val[:len(val)-1]` before one.
abbrev pub drop_newline : Text → Text
drop_newline [] = []
drop_newline (c ∷ cs) = if c == 10 then cs else c ∷ cs

abbrev pub drop_last_newline : Text → Text
drop_last_newline [] = []
drop_last_newline (c ∷ []) = if c == 10 then [] else c ∷ []
drop_last_newline (c ∷ d ∷ cs) = c ∷ drop_last_newline (d ∷ cs)

-- The names, each after `f`, with commas between them.
abbrev pub joined : (Text → Text) → List Text → Text
joined f [] = []
joined f (a ∷ []) = f a
joined f (a ∷ b ∷ as_) = f a ++ codes ", " ++ joined f (b ∷ as_)

-- The arguments of a function, with their type if their text is not empty.
abbrev pub typed : Text → Text
typed [] = []
typed (c ∷ cs) = c ∷ cs ++ codes " interface{}"

abbrev pub top_args : List (List Text) → List Text
top_args [] = []
top_args (args ∷ st) = args

-- The results of a function, `onFuncTemplate` and `callFuncTemplate` or those of predicates.
abbrev pub results : Bool → Text
results true = codes "(bool, error)"
results false = codes "(interface{}, error)"

-- `onFuncTemplate` or `onPredFuncTemplate`.
abbrev pub on_func : Bool → Text → Text → Text → Text → Text
on_func is_pred recv name args val =
    codes "func ("
    ++ recv
    ++ codes " *current) "
    ++ name
    ++ codes "("
    ++ args
    ++ codes ") "
    ++ results is_pred
    ++ codes " {\n"
    ++ val
    ++ codes "\n}\n"

-- `callFuncTemplate` or `callPredFuncTemplate`.
abbrev pub call_func : Bool → Text → Text → Text
call_func is_pred name args =
    codes "func (p *parser) call"
    ++ name
    ++ codes "() "
    ++ results is_pred
    ++ codes " {\n\tstack := p.vstack[len(p.vstack)-1]\n\t_ = stack\n\treturn p.cur."
    ++ name
    ++ codes "("
    ++ args
    ++ codes ")\n}\n"

-- `none` where the code panics: on a slice out of a text or on an empty stack.
module _ (h : Host) where
  abbrev pub stack_arg : Text → Text
  stack_arg arg = codes "stack[" ++ h.quote arg ++ codes "]"

  -- The code without its braces, and without the newlines next to them.
  abbrev pub code_body : Text → Option Text
  code_body val = do
    body ← slice (h.trim_space val) 1 (length val - 1)
    some (drop_last_newline (drop_newline body))

  -- The code is a predicate or an action.
  unfoldable pub write_func : Bool → ℕ → PosValue → Builder → Option Builder
  write_func is_pred ix code b = do
    val ← code_body code.val
    let args = top_args b.args_stack
    let name = func_name h ix b
    let on_text = on_func is_pred b.cur_recv_name name (typed (joined (λ a. a) args)) val
    let call_text = call_func is_pred name (joined stack_arg args)
    some (writelnf h call_text (writelnf h on_text b))

  abbrev pub push_args_set : Builder → Builder
  push_args_set b = record b { args_stack = [] ∷ b.args_stack }

  abbrev pub pop_args_set : Builder → Option Builder
  pop_args_set b = elim b.args_stack [ [] ↦ none | args ∷ st ↦ some (record b { args_stack = st }) ]

  abbrev pub add_arg : PosValue → Builder → Option Builder
  add_arg arg b = elim b.args_stack [
    | [] ↦ none
    | args ∷ st ↦ some (record b { args_stack = (args ++ arg.val ∷ []) ∷ st })
  ]

  unfoldable mutual
    unfolding write_func

    pub write_expr_code : Expression → Builder → Option Builder
    write_expr_code (Ast.action_expr p e c ix) b = write_expr_code e b >>= write_func false ix c
    write_expr_code (Ast.and_code_expr p c ix) b = write_func true ix c b
    write_expr_code (Ast.labeled_expr p l e) b =
        add_arg l b >>= λ b₁. write_expr_code e (push_args_set b₁) >>= pop_args_set
    write_expr_code (Ast.not_code_expr p c ix) b = write_func true ix c b
    write_expr_code (Ast.and_expr p e) b = write_expr_code e b
    write_expr_code (Ast.choice_expr p es) b = write_alternatives_code es b
    write_expr_code (Ast.not_expr p e) b = write_expr_code e b
    write_expr_code (Ast.one_or_more_expr p e) b = write_expr_code e b
    write_expr_code (Ast.seq_expr p es) b = write_seq_code es b
    write_expr_code (Ast.zero_or_more_expr p e) b = write_expr_code e b
    write_expr_code (Ast.zero_or_one_expr p e) b = write_expr_code e b
    write_expr_code (Ast.any_matcher a) b = some b
    write_expr_code (Ast.char_class_matcher c) b = some b
    write_expr_code (Ast.lit_matcher l) b = some b
    write_expr_code (Ast.rule_ref_expr p n) b = some b

    pub write_alternatives_code : Expressions → Builder → Option Builder
    write_alternatives_code Ast.no_more b = some b
    write_alternatives_code (Ast.more e es) b =
        write_expr_code e (push_args_set b) >>= pop_args_set >>= write_alternatives_code es

    pub write_seq_code : Expressions → Builder → Option Builder
    write_seq_code Ast.no_more b = some b
    write_seq_code (Ast.more e es) b = write_expr_code e b >>= write_seq_code es

  unfoldable pub write_rule_code : Rule → Builder → Option Builder
  unfolding write_expr_code
  write_rule_code r b =
      write_expr_code r.expr (push_args_set (record b { rule_name = r.name.val })) >>= pop_args_set

  unfoldable pub write_rules_code : List Rule → Builder → Option Builder
  unfolding write_rule_code
  write_rules_code [] b = some b
  write_rules_code (r ∷ rs) b = write_rule_code r b >>= write_rules_code rs

  abbrev pub write_static_code : Builder → Builder
  write_static_code b = writelnf h h.static_code b

  abbrev pub write_init : Option PosValue → Builder → Option Builder
  write_init none b = some b
  write_init (some init) b = do
    val ← slice init.val 1 (length init.val - 1)
    some (writelnf h val b)

  -- The builder behind the build; what the code returns is its error.
  unfoldable pub build : Grammar → Builder → Option Builder
  unfolding write_grammar write_rules_code
  build g b = do
    b₁ ← write_init g.init b
    let (rules, b₂) = write_grammar h g.rules b₁
    b₃ ← write_rules_code rules b₂
    some (write_static_code b₃)

-- `CurrentReceiverName(nm)`, the only option, which returns an option with the name before.
abbrev pub current_receiver_name : Text → Builder → Text × Builder
current_receiver_name nm b = (b.cur_recv_name, record b { cur_recv_name = nm })

abbrev pub set_options : List Text → Builder → Builder
set_options [] b = b
set_options (nm ∷ opts) b = set_options opts (current_receiver_name nm b).1

abbrev pub new_builder : Builder
new_builder = record {
  out = [];
  err = none;
  cur_recv_name = codes "c";
  rule_name = [];
  expr_index = 0;
  args_stack = [];
}

unfoldable pub build_parser : Host → Grammar → List Text → Option Builder
unfolding build
build_parser h g opts = build h g (set_options opts new_builder)
