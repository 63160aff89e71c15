-- ===== src/Bootstrap/Parser/Concrete.antt =====
-- Grammar expressions as they are written: the tokens of each form, and the syntax tree that it
-- stands for. Lines count from 1, so the position `p` is on the line `p.line + 1`.
use exp.Base.{ℕ, suc, ◌+◌, List, [], ◌∷◌, ◌++◌, Text, codes, Bool, true, false}
use exp.Peg.Ast
use exp.Peg.Ast.{Pos, PosValue, CharClassMatcher, Expression, Expressions, pos_of}
use exp.Bootstrap.Token
use exp.Bootstrap.Token.{Tid, Token}

abbrev pub on_line : Pos → Pos
on_line p = record p { line = suc p.line }

abbrev pub token : Tid → Text → Pos → Token
token id lit p = record { id = id; lit = lit; pos = on_line p }

-- The three tokens of a literal.
pub data LitKind : Type 0 where
  string : LitKind
  raw_string : LitKind
  character : LitKind

abbrev pub lit_tid : LitKind → Tid
lit_tid string = Token.str
lit_tid raw_string = Token.rstr
lit_tid character = Token.char

pub data Suffix : Type 0 where
  once : Suffix
  optional : Pos → Suffix
  repeated : Pos → Suffix
  at_least_once : Pos → Suffix

-- A literal has its text in quotes, whether an `i` follows, and its value; a class has its text and
-- the matcher for it. Parentheses, prefixes, suffixes, colons and slashes have their positions.
mutual
  pub data Primary : Type 0 where
    literal : LitKind → Pos → Text → Bool → Text → Primary
    class : Pos → Text → CharClassMatcher → Primary
    any : Pos → Text → Primary
    reference : Pos → Text → Primary
    paren : Pos → Choice → Pos → Primary

  pub data Prefixed : Type 0 where
    plain : Primary → Suffix → Prefixed
    followed_by : Pos → Primary → Suffix → Prefixed
    not_followed_by : Pos → Primary → Suffix → Prefixed

  pub data Labeled : Type 0 where
    unlabeled : Prefixed → Labeled
    labeled : Pos → Text → Pos → Prefixed → Labeled

  pub data Seq : Type 0 where
    item : Labeled → Seq
    items : Labeled → Seq → Seq

  pub data Action : Type 0 where
    no_code : Seq → Action
    code : Seq → Pos → Text → Action

  pub data Choice : Type 0 where
    alternative : Action → Choice
    alternatives : Action → Pos → Choice → Choice

abbrev pub suffix_tokens : Suffix → List Token → List Token
suffix_tokens once ts = ts
suffix_tokens (optional p) ts = token Token.question (codes "?") p ∷ ts
suffix_tokens (repeated p) ts = token Token.star (codes "*") p ∷ ts
suffix_tokens (at_least_once p) ts = token Token.plus (codes "+") p ∷ ts

abbrev pub literal_text : Text → Bool → Text
literal_text lit true = lit ++ 105 ∷ []
literal_text lit false = lit

-- The tokens of a form, before others.
abbrev mutual
  pub primary_tokens : Primary → List Token → List Token
  primary_tokens (literal k p lit ignore val) ts =
      token (lit_tid k) (literal_text lit ignore) p ∷ ts
  primary_tokens (class p lit c) ts = token Token.class lit p ∷ ts
  primary_tokens (any p lit) ts = token Token.dot lit p ∷ ts
  primary_tokens (reference p name) ts = token Token.ident name p ∷ ts
  primary_tokens (paren p c p') ts =
      token Token.lparen (codes "(") p ∷ tokens c (token Token.rparen (codes ")") p' ∷ ts)

  pub prefixed_tokens : Prefixed → List Token → List Token
  prefixed_tokens (plain c s) ts = primary_tokens c (suffix_tokens s ts)
  prefixed_tokens (followed_by p c s) ts =
      token Token.ampersand (codes "&") p ∷ primary_tokens c (suffix_tokens s ts)
  prefixed_tokens (not_followed_by p c s) ts =
      token Token.exclamation (codes "!") p ∷ primary_tokens c (suffix_tokens s ts)

  pub labeled_tokens : Labeled → List Token → List Token
  labeled_tokens (unlabeled c) ts = prefixed_tokens c ts
  labeled_tokens (labeled p name p' c) ts =
      token Token.ident name p ∷ token Token.colon (codes ":") p' ∷ prefixed_tokens c ts

  pub seq_tokens : Seq → List Token → List Token
  seq_tokens (item c) ts = labeled_tokens c ts
  seq_tokens (items c s) ts = labeled_tokens c (seq_tokens s ts)

  pub action_tokens : Action → List Token → List Token
  action_tokens (no_code s) ts = seq_tokens s ts
  action_tokens (code s p text) ts = seq_tokens s (token Token.code text p ∷ ts)

  pub tokens : Choice → List Token → List Token
  tokens (alternative a) ts = action_tokens a ts
  tokens (alternatives a p c) ts = action_tokens a (token Token.slash (codes "/") p ∷ tokens c ts)

-- The position of the first token.
abbrev pub first_primary : Primary → Pos
first_primary (literal k p lit ignore val) = on_line p
first_primary (class p lit c) = on_line p
first_primary (any p lit) = on_line p
first_primary (reference p name) = on_line p
first_primary (paren p c p') = on_line p

abbrev pub first_prefixed : Prefixed → Pos
first_prefixed (plain c s) = first_primary c
first_prefixed (followed_by p c s) = on_line p
first_prefixed (not_followed_by p c s) = on_line p

abbrev pub first_labeled : Labeled → Pos
first_labeled (unlabeled c) = first_prefixed c
first_labeled (labeled p name p' c) = on_line p

abbrev pub first_seq : Seq → Pos
first_seq (item c) = first_labeled c
first_seq (items c s) = first_labeled c

abbrev pub first_action : Action → Pos
first_action (no_code s) = first_seq s
first_action (code s p text) = first_seq s

abbrev pub first : Choice → Pos
first (alternative a) = first_action a
first (alternatives a p c) = first_action a

abbrev pub suffixed : Suffix → Expression → Expression
suffixed once e = e
suffixed (optional p) e = Ast.zero_or_one_expr (pos_of e) e
suffixed (repeated p) e = Ast.zero_or_more_expr (pos_of e) e
suffixed (at_least_once p) e = Ast.one_or_more_expr (pos_of e) e

-- The syntax tree of a form. Sequences and choices of one expression are that expression.
abbrev mutual
  pub primary_tree : Primary → Expression
  primary_tree (literal k p lit ignore val) =
      Ast.lit_matcher (record { p = on_line p; val = val; ignore_case = ignore })
  primary_tree (class p lit c) = Ast.char_class_matcher c
  primary_tree (any p lit) = Ast.any_matcher (record { p = on_line p; val = lit })
  primary_tree (reference p name) =
      Ast.rule_ref_expr (on_line p) (record { p = on_line p; val = name })
  primary_tree (paren p c p') = tree c

  pub prefixed_tree : Prefixed → Expression
  prefixed_tree (plain c s) = suffixed s (primary_tree c)
  prefixed_tree (followed_by p c s) = Ast.and_expr (on_line p) (suffixed s (primary_tree c))
  prefixed_tree (not_followed_by p c s) = Ast.not_expr (on_line p) (suffixed s (primary_tree c))

  pub labeled_tree : Labeled → Expression
  labeled_tree (unlabeled c) = prefixed_tree c
  labeled_tree (labeled p name p' c) =
      Ast.labeled_expr (on_line p) (record { p = on_line p; val = name }) (prefixed_tree c)

  pub item_trees : Seq → Expressions
  item_trees (item c) = Ast.more (labeled_tree c) Ast.no_more
  item_trees (items c s) = Ast.more (labeled_tree c) (item_trees s)

  pub seq_tree : Seq → Expression
  seq_tree (item c) = labeled_tree c
  seq_tree (items c s) = Ast.seq_expr (first_labeled c) (Ast.more (labeled_tree c) (item_trees s))

  pub action_tree : Action → Expression
  action_tree (no_code s) = seq_tree s
  action_tree (code s p text) =
      Ast.action_expr (first_seq s) (seq_tree s) (record { p = on_line p; val = text }) 0

  pub choice_trees : Choice → Expressions
  choice_trees (alternative a) = Ast.more (action_tree a) Ast.no_more
  choice_trees (alternatives a p c) = Ast.more (action_tree a) (choice_trees c)

  pub tree : Choice → Expression
  tree (alternative a) = action_tree a
  tree (alternatives a p c) =
      Ast.choice_expr (first_action a) (Ast.more (action_tree a) (choice_trees c))

-- How large a form is: the nodes of the six kinds above.
abbrev mutual
  pub primary_size : Primary → ℕ
  primary_size (literal k p lit ignore val) = 1
  primary_size (class p lit c) = 1
  primary_size (any p lit) = 1
  primary_size (reference p name) = 1
  primary_size (paren p c p') = suc (size c)

  pub prefixed_size : Prefixed → ℕ
  prefixed_size (plain c s) = primary_size c
  prefixed_size (followed_by p c s) = primary_size c
  prefixed_size (not_followed_by p c s) = primary_size c

  pub labeled_size : Labeled → ℕ
  labeled_size (unlabeled c) = prefixed_size c
  labeled_size (labeled p name p' c) = prefixed_size c

  pub seq_size : Seq → ℕ
  seq_size (item c) = suc (labeled_size c)
  seq_size (items c s) = suc (labeled_size c + seq_size s)

  pub action_size : Action → ℕ
  action_size (no_code s) = seq_size s
  action_size (code s p text) = seq_size s

  pub size : Choice → ℕ
  size (alternative a) = suc (action_size a)
  size (alternatives a p c) = suc (action_size a + size c)
