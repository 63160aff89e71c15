-- ===== src/Bootstrap/Parser/RoundTrip/First.antt =====
-- The first tokens of each form, and the tokens behind an expression.
use exp.Base.{true, false, List, [], ◌∷◌, ◌++◌, Text, ◌≡◌, refl, int_eq, arith, codes}
use exp.Peg.Ast.{Pos}
use exp.Peg.Ast.CharClass.{has_suffix_i, without_last}
use exp.Bootstrap.Token
use exp.Bootstrap.Token.{Tid, Token}
use exp.Bootstrap.Parser.Concrete
use exp.Bootstrap.Parser.Concrete.{
  on_line, token, lit_tid, Suffix, Primary, Prefixed, Labeled, Seq, Action, Choice, suffix_tokens,
  primary_tokens, prefixed_tokens, labeled_tokens, seq_tokens, action_tokens, tokens, primary_tree,
  prefixed_tree, labeled_tree, item_trees, seq_tree, action_tree, choice_trees, tree, primary_size,
  prefixed_size, labeled_size, seq_size, action_size, size, first_primary, first_labeled, first_seq,
  first_action, first, literal_text, suffixed,
}
use exp.Bootstrap.Parser.Source.{scan_list, OnLine}

-- The tokens that end a sequence.
pub data Behind : Type 0 where
  code : Behind
  slash : Behind
  rparen : Behind
  eol : Behind
  eof : Behind
  semicolon : Behind

abbrev pub behind_tid : Behind → Tid
behind_tid code = Token.code
behind_tid slash = Token.slash
behind_tid rparen = Token.rparen
behind_tid eol = Token.eol
behind_tid eof = Token.eof
behind_tid semicolon = Token.semicolon

-- Tokens that do not go on with an expression: the first one is on a line, and it is no colon and no
-- suffix operator.
abbrev pub Fresh : List Token → Type 0
Fresh ts =
    OnLine ts
    × (int_eq (scan_list ts).token.id Token.colon ≡ false)
    × (int_eq (scan_list ts).token.id Token.question ≡ false)
    × (int_eq (scan_list ts).token.id Token.star ≡ false)
    × (int_eq (scan_list ts).token.id Token.plus ≡ false)

pub suc_line : (p : Pos) → OnLine (token Token.eof [] p ∷ [])
suc_line p = ground arith

-- Each form starts with a fresh token.
pub Fresh-primary : (c : Primary) (ts : List Token) → Fresh (primary_tokens c ts)
Fresh-primary (Concrete.literal Concrete.string p lit ignore val) ts =
    (suc_line p, refl, refl, refl, refl)
Fresh-primary (Concrete.literal Concrete.raw_string p lit ignore val) ts =
    (suc_line p, refl, refl, refl, refl)
Fresh-primary (Concrete.literal Concrete.character p lit ignore val) ts =
    (suc_line p, refl, refl, refl, refl)
Fresh-primary (Concrete.class p lit c) ts = (suc_line p, refl, refl, refl, refl)
Fresh-primary (Concrete.any p lit) ts = (suc_line p, refl, refl, refl, refl)
Fresh-primary (Concrete.reference p name) ts = (suc_line p, refl, refl, refl, refl)
Fresh-primary (Concrete.paren p c p') ts = (suc_line p, refl, refl, refl, refl)

pub Fresh-prefixed : (c : Prefixed) (ts : List Token) → Fresh (prefixed_tokens c ts)
Fresh-prefixed (Concrete.plain c s) ts = Fresh-primary c (suffix_tokens s ts)
Fresh-prefixed (Concrete.followed_by p c s) ts = (suc_line p, refl, refl, refl, refl)
Fresh-prefixed (Concrete.not_followed_by p c s) ts = (suc_line p, refl, refl, refl, refl)

pub Fresh-labeled : (c : Labeled) (ts : List Token) → Fresh (labeled_tokens c ts)
Fresh-labeled (Concrete.unlabeled c) ts = Fresh-prefixed c ts
Fresh-labeled (Concrete.labeled p name p' c) ts = (suc_line p, refl, refl, refl, refl)

pub Fresh-seq : (s : Seq) (ts : List Token) → Fresh (seq_tokens s ts)
Fresh-seq (Concrete.item c) ts = Fresh-labeled c ts
Fresh-seq (Concrete.items c s) ts = Fresh-labeled c (seq_tokens s ts)

pub Fresh-action : (a : Action) (ts : List Token) → Fresh (action_tokens a ts)
Fresh-action (Concrete.no_code s) ts = Fresh-seq s ts
Fresh-action (Concrete.code s p text) ts = Fresh-seq s (token Token.code text p ∷ ts)

pub Fresh-tokens : (c : Choice) (ts : List Token) → Fresh (tokens c ts)
Fresh-tokens (Concrete.alternative a) ts = Fresh-action a ts
Fresh-tokens (Concrete.alternatives a p c) ts =
    Fresh-action a (token Token.slash (codes "/") p ∷ tokens c ts)

pub Fresh-behind :
    (k : Behind) (lit : Text) (p : Pos) (ts : List Token) → Fresh (token (behind_tid k) lit p ∷ ts)
Fresh-behind code lit p ts = (suc_line p, refl, refl, refl, refl)
Fresh-behind slash lit p ts = (suc_line p, refl, refl, refl, refl)
Fresh-behind rparen lit p ts = (suc_line p, refl, refl, refl, refl)
Fresh-behind eol lit p ts = (suc_line p, refl, refl, refl, refl)
Fresh-behind eof lit p ts = (suc_line p, refl, refl, refl, refl)
Fresh-behind semicolon lit p ts = (suc_line p, refl, refl, refl, refl)

-- No form starts with a line break.
abbrev pub NoBreak : List Token → Type 0
NoBreak ts = int_eq (scan_list ts).token.id Token.eol ≡ false

NoBreak-primary : (c : Primary) (ts : List Token) → NoBreak (primary_tokens c ts)
NoBreak-primary (Concrete.literal Concrete.string p lit ignore val) ts = refl
NoBreak-primary (Concrete.literal Concrete.raw_string p lit ignore val) ts = refl
NoBreak-primary (Concrete.literal Concrete.character p lit ignore val) ts = refl
NoBreak-primary (Concrete.class p lit c) ts = refl
NoBreak-primary (Concrete.any p lit) ts = refl
NoBreak-primary (Concrete.reference p name) ts = refl
NoBreak-primary (Concrete.paren p c p') ts = refl

NoBreak-labeled : (c : Labeled) (ts : List Token) → NoBreak (labeled_tokens c ts)
NoBreak-labeled (Concrete.unlabeled (Concrete.plain c s)) ts =
    NoBreak-primary c (suffix_tokens s ts)
NoBreak-labeled (Concrete.unlabeled (Concrete.followed_by p c s)) ts = refl
NoBreak-labeled (Concrete.unlabeled (Concrete.not_followed_by p c s)) ts = refl
NoBreak-labeled (Concrete.labeled p name p' c) ts = refl

NoBreak-seq : (s : Seq) (ts : List Token) → NoBreak (seq_tokens s ts)
NoBreak-seq (Concrete.item c) ts = NoBreak-labeled c ts
NoBreak-seq (Concrete.items c s) ts = NoBreak-labeled c (seq_tokens s ts)

NoBreak-action : (a : Action) (ts : List Token) → NoBreak (action_tokens a ts)
NoBreak-action (Concrete.no_code s) ts = NoBreak-seq s ts
NoBreak-action (Concrete.code s p text) ts = NoBreak-seq s (token Token.code text p ∷ ts)

pub NoBreak-tokens : (c : Choice) (ts : List Token) → NoBreak (tokens c ts)
NoBreak-tokens (Concrete.alternative a) ts = NoBreak-action a ts
NoBreak-tokens (Concrete.alternatives a p c) ts =
    NoBreak-action a (token Token.slash (codes "/") p ∷ tokens c ts)

-- The position of the first token of each form.
pub first-primary :
    (c : Primary) (ts : List Token) → (scan_list (primary_tokens c ts)).token.pos ≡ first_primary c
first-primary (Concrete.literal k p lit ignore val) ts = refl
first-primary (Concrete.class p lit c) ts = refl
first-primary (Concrete.any p lit) ts = refl
first-primary (Concrete.reference p name) ts = refl
first-primary (Concrete.paren p c p') ts = refl

pub first-labeled :
    (c : Labeled) (ts : List Token) → (scan_list (labeled_tokens c ts)).token.pos ≡ first_labeled c
first-labeled (Concrete.unlabeled (Concrete.plain c s)) ts = first-primary c (suffix_tokens s ts)
first-labeled (Concrete.unlabeled (Concrete.followed_by p c s)) ts = refl
first-labeled (Concrete.unlabeled (Concrete.not_followed_by p c s)) ts = refl
first-labeled (Concrete.labeled p name p' c) ts = refl

pub first-seq : (s : Seq) (ts : List Token) → (scan_list (seq_tokens s ts)).token.pos ≡ first_seq s
first-seq (Concrete.item c) ts = first-labeled c ts
first-seq (Concrete.items c s) ts = first-labeled c (seq_tokens s ts)

pub first-action :
    (a : Action) (ts : List Token) → (scan_list (action_tokens a ts)).token.pos ≡ first_action a
first-action (Concrete.no_code s) ts = first-seq s ts
first-action (Concrete.code s p text) ts = first-seq s (token Token.code text p ∷ ts)

pub first-tokens : (c : Choice) (ts : List Token) → (scan_list (tokens c ts)).token.pos ≡ first c
first-tokens (Concrete.alternative a) ts = first-action a ts
first-tokens (Concrete.alternatives a p c) ts =
    first-action a (token Token.slash (codes "/") p ∷ tokens c ts)

pub not_colon :
    (s : Suffix) (ts : List Token)
    → Fresh ts
    → int_eq (scan_list (suffix_tokens s ts)).token.id Token.colon ≡ false
not_colon Concrete.once ts (l, hc, _, _, _) = hc
not_colon (Concrete.optional p) ts h = refl
not_colon (Concrete.repeated p) ts h = refl
not_colon (Concrete.at_least_once p) ts h = refl

pub has_suffix_i-text : (lit : Text) → has_suffix_i (lit ++ 105 ∷ []) ≡ true
unfolding has_suffix_i
has_suffix_i-text [] = refl
has_suffix_i-text (b ∷ []) = refl
has_suffix_i-text (b ∷ c ∷ bs) = has_suffix_i-text (c ∷ bs)

pub without_last-text : (lit : Text) → without_last (lit ++ 105 ∷ []) ≡ lit
unfolding without_last
without_last-text [] = refl
without_last-text (b ∷ []) = refl
without_last-text (b ∷ c ∷ bs) = rw (without_last-text (c ∷ bs))
