-- ===== src/Bootstrap/Parser/Written.antt =====
-- Grammars as they are written: their tokens, and the syntax tree that they stand for.
use exp.Base.{ℕ, suc, ◌+◌, Option, none, some, List, [], ◌∷◌, ◌++◌, Text, codes, length, ◌≡◌, false}
use exp.Peg.Ast.{Pos, PosValue, Rule}
use exp.Peg.Ast.CharClass.{has_suffix_i}
use exp.Bootstrap.Token
use exp.Bootstrap.Token.{Tid, Token}
use exp.Bootstrap.Parser.Expr.{Library, unquoted}
use exp.Bootstrap.Parser.Concrete.{on_line, token, LitKind, lit_tid, Choice, tokens, tree, size}
use exp.Bootstrap.Parser.Readable.{Readable}

pub data Separator : Type 0 where
  line_break : Pos → Separator
  semicolon : Pos → Separator

abbrev pub separator_token : Separator → Token
separator_token (line_break p) = token Token.eol (codes "\n") p
separator_token (semicolon p) = token Token.semicolon (codes ";") p

abbrev pub separator_tokens : List Separator → List Token
separator_tokens [] = []
separator_tokens (s ∷ ss) = separator_token s ∷ separator_tokens ss

abbrev pub break_tokens : List Pos → List Token
break_tokens [] = []
break_tokens (p ∷ ps) = token Token.eol (codes "\n") p ∷ break_tokens ps

-- The name to display: its token, and its value.
pub record Display : Type 0 where
  pub kind : LitKind
  pub p : Pos
  pub lit : Text
  pub val : Text

-- A rule, up to what ends it: its name, the arrow and the line breaks behind, and the expression.
pub record Definition : Type 0 where
  pub p : Pos
  pub name : Text
  pub display : Option Display
  pub arrow : Text
  pub arrow_p : Pos
  pub breaks : List Pos
  pub body : Choice

-- The last rule may end with the file.
pub data Definitions : Type 0 where
  none_left : Definitions
  last : Definition → Definitions
  definition : Definition → Separator → List Separator → Definitions → Definitions

pub record File : Type 0 where
  pub before : List Separator
  pub init : Option (Pos × Text × List Separator)
  pub definitions : Definitions
  pub end_p : Pos

abbrev pub display_tokens : Option Display → List Token → List Token
display_tokens none ts = ts
display_tokens (some d) ts = token (lit_tid d.kind) d.lit d.p ∷ ts

abbrev pub definition_tokens : Definition → List Token → List Token
definition_tokens d ts =
    token Token.ident d.name d.p
    ∷ display_tokens d.display
        (token Token.ruledef d.arrow d.arrow_p ∷ (break_tokens d.breaks ++ tokens d.body ts))

abbrev pub definitions_tokens : Definitions → List Token → List Token
definitions_tokens none_left ts = ts
definitions_tokens (last d) ts = definition_tokens d ts
definitions_tokens (definition d s ss ds) ts =
    definition_tokens d (separator_token s ∷ (separator_tokens ss ++ definitions_tokens ds ts))

abbrev pub init_tokens : Option (Pos × Text × List Separator) → List Token → List Token
init_tokens none ts = ts
init_tokens (some (p, text, ss)) ts = token Token.code text p ∷ (separator_tokens ss ++ ts)

abbrev pub file_tokens : File → List Token
file_tokens g =
    separator_tokens g.before
    ++ init_tokens g.init (definitions_tokens g.definitions (token Token.eof [] g.end_p ∷ []))

abbrev pub display_tree : Option Display → Option PosValue
display_tree none = none
display_tree (some d) = some (record { p = on_line d.p; val = d.val })

abbrev pub definition_tree : Definition → Rule
definition_tree d = record {
  p = on_line d.p;
  name = record { p = on_line d.p; val = d.name };
  display_name = display_tree d.display;
  expr = tree d.body;
}

abbrev pub rule_trees : Definitions → List Rule
rule_trees none_left = []
rule_trees (last d) = definition_tree d ∷ []
rule_trees (definition d s ss ds) = definition_tree d ∷ rule_trees ds

abbrev pub init_tree : Option (Pos × Text × List Separator) → Option PosValue
init_tree none = none
init_tree (some (p, text, ss)) = some (record { p = on_line p; val = text })

-- Display names are literals without an `i`, and the library reads their texts, those of the
-- literals and those of the classes as the forms say.
abbrev pub DisplayReadable : Library → Option Display → Type 0
DisplayReadable lib none = Unit {0}
DisplayReadable lib (some d) = (has_suffix_i d.lit ≡ false) × (lib.unquote d.lit ≡ unquoted d.val)

abbrev pub DefinitionsReadable : Library → Definitions → Type 0
DefinitionsReadable lib none_left = Unit {0}
DefinitionsReadable lib (last d) = DisplayReadable lib d.display × Readable lib d.body
DefinitionsReadable lib (definition d s ss ds) =
    DisplayReadable lib d.display × Readable lib d.body × DefinitionsReadable lib ds

abbrev pub definition_size : Definition → ℕ
definition_size d = suc (size d.body + length d.breaks)

abbrev pub definitions_size : Definitions → ℕ
definitions_size none_left = 0
definitions_size (last d) = suc (definition_size d)
definitions_size (definition d s ss ds) = suc (definition_size d + length ss + definitions_size ds)

abbrev pub init_size : Option (Pos × Text × List Separator) → ℕ
init_size none = 0
init_size (some (p, text, ss)) = length ss

abbrev pub file_size : File → ℕ
file_size g = length g.before + init_size g.init + definitions_size g.definitions
