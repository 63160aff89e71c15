-- ===== src/Peg/Builder.antt =====
-- peg/builder/builder.go: the builder, which writes the text of a generated parser.
pub mod Lowered
pub mod Nodes
pub mod Code
pub mod Functions
pub mod Delivers
pub mod Indices
pub mod Links
mod Samples
use exp.Base.{
  ℕ, ◌-◌, Bool, true, false, Option, none, some, List, [], ◌∷◌, ◌++◌, Text, codes, leb, ◌&&◌,
  if◌then◌else◌, length, take, drop,
}
use exp.Peg.Ast.{Pos}

-- What is taken from Go's library and from the writer: `%q` of a string and of a rune, `%d`, lower
-- case, `strings.TrimSpace`, and the error that the writer returns for a text behind the texts that
-- it was given before. `static_code` is the text of `staticCode` as it is printed.
pub record Host : Type 0 where
  pub quote : Text → Text
  pub quote_rune : ℕ → Text
  pub decimal : ℕ → Text
  pub rune_to_lower : ℕ → ℕ
  pub to_lower : Text → Text
  pub trim_space : Text → Text
  pub static_code : Text
  pub write : List Text → Text → Option Text

-- `out` holds the texts that the writer was given; `args_stack` has its top first.
pub record Builder : Type 0 where
  pub out : List Text
  pub err : Option Text
  pub cur_recv_name : Text
  pub rule_name : Text
  pub expr_index : ℕ
  pub args_stack : List (List Text)

-- What the writer was given, and `err`.
abbrev pub Sink : Type 0
Sink = List Text × Option Text

module _ (h : Host) where
  -- A text to the writer, if there is no error yet.
  abbrev pub send : Text → Sink → Sink
  send t (out, some e) = (out, some e)
  send t (out, none) = (out ++ t ∷ [], h.write out t)

  -- `t` is the format with its arguments.
  abbrev pub writef : Text → Builder → Builder
  writef t b = record b { out = (send t (b.out, b.err)).0; err = (send t (b.out, b.err)).1 }

  abbrev pub writelnf : Text → Builder → Builder
  writelnf t b = writef (t ++ codes "\n") b

  -- The texts of the formats that several functions use.
  abbrev pub position : Pos → Text
  position p =
      codes "line: "
      ++ h.decimal p.line
      ++ codes ", col: "
      ++ h.decimal p.col
      ++ codes ", offset: "
      ++ h.decimal p.off

  abbrev pub pos_line : Pos → Text
  pos_line p = codes "\tpos: position{" ++ position p ++ codes "},"

  abbrev pub run_line : Text → Text
  run_line name = codes "\trun: (*parser).call" ++ name ++ codes ","

  abbrev pub name_of : Text → ℕ → Text
  name_of rule ix = codes "on" ++ rule ++ h.decimal ix

  abbrev pub func_name : ℕ → Builder → Text
  func_name ix b = name_of b.rule_name ix

-- `%t`
abbrev pub bool_text : Bool → Text
bool_text true = codes "true"
bool_text false = codes "false"

-- `t[low:high]`, which panics out of the text.
abbrev pub slice : Text → ℕ → ℕ → Option Text
slice t low high =
    if leb low high && leb high (length t) then some (take (high - low) (drop low t)) else none
