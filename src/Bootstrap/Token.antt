-- ===== src/Bootstrap/Token.antt =====
-- peg/bootstrap/token.go: the tokens of a grammar file.
use exp.Base.{
  Bool, true, false, List, [], ◌∷◌, Text, codes, text_eq, if◌then◌else◌, ℤ, pos, negsuc, int_eq,
}
use exp.Peg.Ast.{Pos}

-- `tid`; operators have the value of their character.
abbrev pub Tid : Type 0
Tid = ℤ

abbrev pub invalid : Tid
invalid = negsuc 0

abbrev pub eof : Tid
eof = pos 0

abbrev pub ident : Tid
ident = pos 129

abbrev pub ruledef : Tid
ruledef = pos 130

abbrev pub char : Tid
char = pos 131

abbrev pub str : Tid
str = pos 132

abbrev pub rstr : Tid
rstr = pos 133

abbrev pub class : Tid
class = pos 134

abbrev pub lcomment : Tid
lcomment = pos 135

abbrev pub mlcomment : Tid
mlcomment = pos 136

abbrev pub code : Tid
code = pos 137

abbrev pub eol : Tid
eol = pos 10

abbrev pub colon : Tid
colon = pos 58

abbrev pub semicolon : Tid
semicolon = pos 59

abbrev pub lparen : Tid
lparen = pos 40

abbrev pub rparen : Tid
rparen = pos 41

abbrev pub dot : Tid
dot = pos 46

abbrev pub ampersand : Tid
ampersand = pos 38

abbrev pub exclamation : Tid
exclamation = pos 33

abbrev pub question : Tid
question = pos 63

abbrev pub plus : Tid
plus = pos 43

abbrev pub star : Tid
star = pos 42

abbrev pub slash : Tid
slash = pos 47

unfoldable pub lookup : List (Tid × Text)
lookup =
    (invalid, codes "invalid")
    ∷ (eof, codes "eof")
    ∷ (ident, codes "ident")
    ∷ (ruledef, codes "ruledef")
    ∷ (char, codes "char")
    ∷ (str, codes "str")
    ∷ (rstr, codes "rstr")
    ∷ (class, codes "class")
    ∷ (lcomment, codes "lcomment")
    ∷ (mlcomment, codes "mlcomment")
    ∷ (code, codes "code")
    ∷ (eol, codes "eol")
    ∷ (colon, codes "colon")
    ∷ (semicolon, codes "semicolon")
    ∷ (lparen, codes "lparen")
    ∷ (rparen, codes "rparen")
    ∷ (dot, codes "dot")
    ∷ (ampersand, codes "ampersand")
    ∷ (exclamation, codes "exclamation")
    ∷ (question, codes "question")
    ∷ (plus, codes "plus")
    ∷ (star, codes "star")
    ∷ (slash, codes "slash")
    ∷ []

-- `tid.String`; `unknown` prints a value that has no name.
unfoldable pub tid_name : (Tid → Text) → List (Tid × Text) → Tid → Text
tid_name unknown [] t = unknown t
tid_name unknown ((k, s) ∷ names) t = if int_eq k t then s else tid_name unknown names t

unfoldable pub tid_string : (Tid → Text) → Tid → Text
unfolding tid_name lookup
tid_string unknown t = tid_name unknown lookup t

unfoldable pub blacklisted_idents : List Text
blacklisted_idents =
    codes "break"
    ∷ codes "case"
    ∷ codes "chan"
    ∷ codes "const"
    ∷ codes "continue"
    ∷ codes "default"
    ∷ codes "defer"
    ∷ codes "else"
    ∷ codes "fallthrough"
    ∷ codes "for"
    ∷ codes "func"
    ∷ codes "go"
    ∷ codes "goto"
    ∷ codes "if"
    ∷ codes "import"
    ∷ codes "interface"
    ∷ codes "map"
    ∷ codes "package"
    ∷ codes "range"
    ∷ codes "return"
    ∷ codes "select"
    ∷ codes "struct"
    ∷ codes "switch"
    ∷ codes "type"
    ∷ codes "var"
    ∷ codes "bool"
    ∷ codes "byte"
    ∷ codes "complex64"
    ∷ codes "complex128"
    ∷ codes "error"
    ∷ codes "float32"
    ∷ codes "float64"
    ∷ codes "int"
    ∷ codes "int8"
    ∷ codes "int16"
    ∷ codes "int32"
    ∷ codes "int64"
    ∷ codes "rune"
    ∷ codes "string"
    ∷ codes "uint"
    ∷ codes "uint8"
    ∷ codes "uint16"
    ∷ codes "uint32"
    ∷ codes "uint64"
    ∷ codes "uintptr"
    ∷ codes "true"
    ∷ codes "false"
    ∷ codes "iota"
    ∷ codes "nil"
    ∷ codes "append"
    ∷ codes "cap"
    ∷ codes "close"
    ∷ codes "complex"
    ∷ codes "copy"
    ∷ codes "delete"
    ∷ codes "imag"
    ∷ codes "len"
    ∷ codes "make"
    ∷ codes "new"
    ∷ codes "panic"
    ∷ codes "print"
    ∷ codes "println"
    ∷ codes "real"
    ∷ codes "recover"
    ∷ []

unfoldable pub is_blacklisted : Text → List Text → Bool
is_blacklisted s [] = false
is_blacklisted s (w ∷ ws) = if text_eq w s then true else is_blacklisted s ws

pub record Token : Type 0 where
  pub id : Tid
  pub lit : Text
  pub pos : Pos
