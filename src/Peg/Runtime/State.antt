-- ===== src/Peg/Runtime/State.antt =====
-- peg/builder/static_code.go: the state of the parser and the methods that move it.
use exp.Base.{
  ℕ, ◌+◌, ◌-◌, Bool, Option, none, some, List, [], ◌∷◌, ◌++◌, Text, codes, text_eq, ◌==◌,
  if◌then◌else◌, ◌&&◌, ltb, leb, ◌<◌, ◌≤◌, ◌≡◌, length, take, drop, replicate,
}
use exp.Peg.Runtime.Syntax.{Position, Rule}
use exp.Peg.Runtime.Errors.{ErrList, add}

-- The values of `interface{}` that the runtime makes, and those of the code blocks.
mutual
  pub data Value : Type 0 where
    nil : Value
    str : Text → Value
    vals : Values → Value
    host : ℕ → Value

  pub data Values : Type 0 where
    no_vals : Values
    val : Value → Values → Values

-- `append(vals, val)`
unfoldable pub append_val : Values → Value → Values
append_val no_vals v = val v no_vals
append_val (val w vs) v = val w (append_val vs v)

-- `map[string]interface{}`, with a write that replaces.
abbrev pub ArgMap : Type 0
ArgMap = List (Text × Value)

unfoldable pub set_arg : ArgMap → Text → Value → ArgMap
set_arg [] k v = (k, v) ∷ []
set_arg ((j, w) ∷ m) k v = if text_eq j k then (k, v) ∷ m else (j, w) ∷ set_arg m k v

pub record Current : Type 0 where
  pub pos : Position
  pub text : Text

pub record Savepoint : Type 0 where
  pub position : Position
  pub rn : ℕ
  pub w : ℕ

-- The slice `vstack`: the maps in use, the top first, and the slots of the array behind them.
pub record VStack : Type 0 where
  pub live : List ArgMap
  pub spare : List (Option ArgMap)

-- `rstack` has its top first. The debug counter `depth` is left out.
pub record Parser : Type 0 where
  pub filename : Text
  pub pt : Savepoint
  pub cur : Current
  pub input : Text
  pub errs : ErrList
  pub rules : Text → Option Rule
  pub vstack : VStack
  pub rstack : List Rule

-- How a function of the generated file ends.
pub data Ran {ℓ} (A : Type ℓ) : Type ℓ where
  returned : A → Option Text → Current → Ran A
  ran_panic : Text → Ran A

-- What the runtime takes from Go, its library and the generated file: UTF-8, letter case and
-- Unicode tables, the printing of a number, the texts of the panics on an index and on a slice, the
-- free slots that `append` leaves when it allocates, and the code blocks.
pub record Env : Type 0 where
  pub decode_rune : Text → ℕ × ℕ
  pub encode_rune : ℕ → Text
  pub to_lower : ℕ → ℕ
  pub unicode_is : ℕ → ℕ → Bool
  pub format_int : ℕ → Text
  pub index_panic : Text
  pub slice_panic : Text
  pub free_slots : ℕ → ℕ
  pub run_action : ℕ → Current → ArgMap → Ran Value
  pub run_pred : ℕ → Current → ArgMap → Ran Bool

-- `utf8.RuneError`
abbrev pub rune_error : ℕ
rune_error = 0xFFFD

-- What the documentation of `utf8.DecodeRune` states.
pub record DecodesUtf8 (env : Env) : Type 0 where
  pub decode_end : env.decode_rune [] ≡ (rune_error, 0)
  pub width_pos : (b : ℕ) (bs : Text) → 0 < (env.decode_rune (b ∷ bs)).1
  pub width_le : (bs : Text) → (env.decode_rune bs).1 ≤ length bs

-- The slot that the longer slice ends in, and those behind it: an old slot while the capacity
-- lasts, and otherwise a `nil` in an array that `append` allocates.
abbrev pub next_slot : Env → ℕ → List (Option ArgMap) → Option ArgMap × List (Option ArgMap)
next_slot env n [] = (none, replicate (env.free_slots n) none)
next_slot env n (m ∷ ms) = (m, ms)

-- An empty map in the slot is used again; otherwise a new map is made.
abbrev pub fresh_map : Option ArgMap → ArgMap
fresh_map (some []) = []
fresh_map _ = []

unfoldable pub push_v : Env → VStack → VStack
push_v env vs =
    let slot = next_slot env (length vs.live) vs.spare in
    record { live = fresh_map slot.0 ∷ vs.live; spare = slot.1 }

-- What `popV` leaves in the slot: a map with entries is dropped.
abbrev pub cleared : ArgMap → Option ArgMap
cleared [] = some []
cleared (_ ∷ _) = none

-- `popV`, or `none` for the index panic on an empty stack.
abbrev pub pop_live : List ArgMap → List (Option ArgMap) → Option VStack
pop_live [] spare = none
pop_live (m ∷ ms) spare = some (record { live = ms; spare = cleared m ∷ spare })

unfoldable pub pop_v : VStack → Option VStack
pop_v vs = pop_live vs.live vs.spare

-- The rule named in an error's prefix, behind its separator.
abbrev pub rule_prefix : List Rule → Text
rule_prefix [] = []
rule_prefix (r ∷ rs) =
    codes ": rule " ++ (if text_eq r.display_name [] then r.name else r.display_name)

abbrev pub file_prefix : Text → Text
file_prefix [] = []
file_prefix (c ∷ cs) = (c ∷ cs) ++ codes ":"

module _ (env : Env) where
  -- The place in the prefix of an error.
  unfoldable pub position_text : Position → Text
  position_text p =
      env.format_int p.line
      ++ (codes ":"
          ++ (env.format_int p.col ++ (codes " (" ++ (env.format_int p.offset ++ codes ")"))))

  -- `position.String`
  unfoldable pub position_string : Position → Text
  position_string p =
      env.format_int p.line
      ++ (codes ":"
          ++ (env.format_int p.col ++ (codes " [" ++ (env.format_int p.offset ++ codes "]"))))

  unfoldable pub add_err_at : Text → Position → Parser → Parser
  unfolding add position_text
  add_err_at err pos p =
      let prefix = file_prefix p.filename ++ (position_text pos ++ rule_prefix p.rstack) in
      record p { errs = add p.errs (record { inner = err; prefix = prefix }) }

  unfoldable pub add_err : Text → Parser → Parser
  unfolding add_err_at
  add_err err p = add_err_at err p.pt.position p

  -- The place behind the current rune, and the rune that stands there, if `p.data[p.pt.offset:]` does not
  -- panic (`reading` of Matchers).
  unfoldable pub next_savepoint : Text → Savepoint → Savepoint
  next_savepoint input pt =
      let offset = pt.position.offset + pt.w in
      let rune = env.decode_rune (drop offset input) in
      let col = pt.position.col + 1 in
      let line = pt.position.line in
      let newline = rune.0 == 10 in
      record {
        position = record {
          line = if newline then line + 1 else line;
          col = if newline then 0 else col;
          offset = offset;
        };
        rn = rune.0;
        w = rune.1;
      }

  unfoldable pub read : Parser → Parser
  unfolding next_savepoint add_err
  read p =
      let p' = record p { pt = next_savepoint p.input p.pt } in
      if p'.pt.rn == rune_error && ltb 0 p'.pt.w then add_err (codes "invalid encoding") p' else p'

unfoldable pub save : Parser → Savepoint
save p = p.pt

unfoldable pub restore : Savepoint → Parser → Parser
restore pt p = if pt.position.offset == p.pt.position.offset then p else record p { pt = pt }

-- `p.data[start.offset:end.offset]`, or none for the panic where this is no part of the input. A stop
-- behind the input but within the capacity of the array, which Go would take, is a panic here, too.
unfoldable pub slice : Parser → Position → Position → Option Text
slice p start stop =
    if leb start.offset stop.offset && leb stop.offset (length p.input)
    then some (take (stop.offset - start.offset) (drop start.offset p.input))
    else none

-- The map entry that each round of `buildRulesTable` writes: of two rules with one name the later.
unfoldable pub build_rules_table : List Rule → (Text → Option Rule) → Text → Option Rule
build_rules_table [] table = table
build_rules_table (r ∷ rs) table =
    build_rules_table rs (λ k. if text_eq r.name k then some r else table k)
