-- ===== src/Bootstrap/Samples.antt =====
-- peg/bootstrap: the theorems at a small file and a small grammar.
use exp.Base.{
  ℕ, ◌<◌, ◌≡◌, refl, true, false, none, some, List, [], ◌∷◌, Text, codes, arith, Ends, repeat,
}
use exp.Lexer.Scan.{Rune, eof_error}
use exp.Peg.Ast
use exp.Peg.Ast.{Pos, CharClassMatcher}
use exp.Peg.Ast.CharClass.{Strings, has_suffix_i, without_last, new_char_class_matcher}
use exp.Bootstrap.Scanner.{Host, Scanner, init, read}
use exp.Bootstrap.Token
use exp.Bootstrap.Token.{Token}
use exp.Bootstrap.Files.{token_at, token_at-eof, parse_file}
use exp.Bootstrap.Scanner.Scan.{scan}
use exp.Bootstrap.Scanner.Bodies.{scan_comment, scan_code}
use exp.Bootstrap.Scanner.Blocks.{Block, empty, rune, braces, IsBlock, scan_code-IsBlock}
use exp.Bootstrap.Scanner.Comments.{EndsBefore, scan_comment-first_slash}
use exp.Bootstrap.Scanner.Progress.{size, size_of, in_sync}
use exp.Bootstrap.Scanner.Progress.Scan.{Advances}
use exp.Bootstrap.Scanner.Progress.Scan.{scan-Advances}
use exp.Bootstrap.Parser.Expr.{Library, Unquoted, unquoted}
use exp.Bootstrap.Parser.Rules.{parse}
use exp.Bootstrap.Parser.Source.{scan_list}
use exp.Bootstrap.Parser.Concrete
use exp.Bootstrap.Parser.Concrete.{on_line}
use exp.Bootstrap.Parser.Written.{File, line_break, last, definition, file_tokens}
use exp.Bootstrap.Parser.RoundTrip.Grammar.{file_tree, parse-file_tokens}

abbrev one_byte : Rune → Text
one_byte none = []
one_byte (some r) = r ∷ []

abbrev host : Host
host = record {
  encode_rune = one_byte;
  is_letter = λ r. false;
  is_digit = λ r. false;
  format_rune = one_byte;
  quote = λ t. t;
}

abbrev bytes : Text → List (ℕ × ℕ)
bytes [] = []
bytes (b ∷ bs) = (b, 1) ∷ bytes bs

abbrev small_file : Scanner
small_file = init (codes "a.peg") (bytes (codes " ab <- 'c'")) eof_error

scan-Advances_example : Ends (Advances (size small_file)) (scan host 30 small_file)
unfolding init size_of in_sync
scan-Advances_example = scan-Advances host 30 small_file refl (omega arith)

token_at-eof_example :
    (k : ℕ) × (k < 20) × (t : Token) × (token_at host k small_file ≡ some t) × (t.id ≡ Token.eof)
unfolding init size_of in_sync
token_at-eof_example = token_at-eof host 20 small_file refl (omega arith)

-- The comment /* a * b / c */, behind its first rune.
abbrev at_comment : Scanner
at_comment = record small_file { cur = some 42; source = bytes (codes " a * b / c */") }

scan_comment-first_slash_example :
    Ends (EndsBefore host (bytes (codes " c */"))) (scan_comment host 20 at_comment)
unfolding init
scan_comment-first_slash_example =
    scan_comment-first_slash host 20 (bytes (codes " a ")) (bytes (codes " b "))
      (bytes (codes " c */")) 1 1 at_comment (refl, (refl, (refl, tt))) (refl, (refl, (refl, tt)))
      (omega arith) refl refl refl

-- The code block {a{b}}, and a line break behind it.
abbrev inside_block : Block
inside_block = rune 97 1 (braces 1 (rune 98 1 empty) 1 empty)

abbrev at_block : Scanner
at_block = record small_file { cur = some 123; source = bytes (codes "a{b}}\n") }

scan_code-IsBlock_example :
    Ends (IsBlock host inside_block (bytes (codes "\n"))) (scan_code host 20 at_block)
unfolding init
scan_code-IsBlock_example =
    scan_code-IsBlock host 20 inside_block 1 (bytes (codes "\n")) at_block
      (refl, refl, ((refl, refl, tt), tt)) (omega arith) refl refl refl

-- Literals are in quotes of one byte each.
abbrev unquote_bytes : Text → Unquoted
unquote_bytes [] = unquoted []
unquote_bytes (b ∷ bs) = unquoted (without_last bs)

abbrev strings : Strings
strings = record { runes = λ t. t; encode_rune = λ r. r ∷ []; unquote_char = λ t. 0 }

abbrev lib : Library
lib = record { unquote = unquote_bytes; unknown_tid = λ t. []; strings = strings }

abbrev at_line : ℕ → Pos
at_line n = record { filename = codes "a.peg"; line = n; col = 1; off = 0 }

abbrev letters : CharClassMatcher
letters = record {
  p = on_line (at_line 1);
  val = codes "[^a-c_]i";
  ignore_case = true;
  inverted = true;
  chars = codes "_";
  ranges = codes "ac";
  unicode_classes = [];
}

-- A "a rule" <- x:'c'i B {return x} / &( [^a-c_]i+ )
-- B <- .
abbrev small_grammar : File
small_grammar = record {
  before = line_break (at_line 0) ∷ [];
  init = none;
  definitions =
      definition
        (record {
          p = at_line 0;
          name = codes "A";
          display = some (record {
            kind = Concrete.string;
            p = at_line 0;
            lit = codes "\"a rule\"";
            val = codes "a rule";
          });
          arrow = codes "<-";
          arrow_p = at_line 0;
          breaks = at_line 0 ∷ [];
          body =
              Concrete.alternatives
                (Concrete.code
                  (Concrete.items
                    (Concrete.labeled (at_line 1) (codes "x") (at_line 1) (
                      Concrete.plain
                        (Concrete.literal Concrete.character (at_line 1) (codes "'c'") true
                          (codes "c"))
                        Concrete.once))
                    (Concrete.item (
                      Concrete.unlabeled (
                        Concrete.plain (Concrete.reference (at_line 1) (codes "B"))
                          Concrete.once))))
                  (at_line 1) (codes "{return x}"))
                (at_line 1)
                (Concrete.alternative (
                  Concrete.no_code (
                    Concrete.item (
                      Concrete.unlabeled (
                        Concrete.followed_by (at_line 1)
                          (Concrete.paren (at_line 1)
                            (Concrete.alternative (
                              Concrete.no_code (
                                Concrete.item (
                                  Concrete.unlabeled (
                                    Concrete.plain
                                      (Concrete.class (at_line 1) (codes "[^a-c_]i") letters)
                                      (Concrete.at_least_once (at_line 1)))))))
                            (at_line 1))
                          Concrete.once)))));
        })
        (line_break (at_line 2)) []
        (last (record {
          p = at_line 3;
          name = codes "B";
          display = none;
          arrow = codes "<-";
          arrow_p = at_line 3;
          breaks = [];
          body = Concrete.alternative (
              Concrete.no_code (
                Concrete.item (
                  Concrete.unlabeled
                    (Concrete.plain (Concrete.any (at_line 3) (codes ".")) Concrete.once))));
        }));
  end_p = at_line 4;
}

parse-file_tokens_example :
    parse scan_list lib 40 (file_tokens small_grammar) ≡ some (file_tree small_grammar, [])
unfolding has_suffix_i without_last new_char_class_matcher repeat
parse-file_tokens_example =
    parse-file_tokens lib small_grammar 40 (((refl, refl), (((refl, refl), tt), refl), (tt, tt)))
      (omega arith)

-- The parser on the text of a file.
parse_dot :
    parse_file host lib 20 [] (bytes (codes "A=.")) eof_error
    ≡ some (
      record {
        p = record { filename = []; line = 1; col = 1; off = 0 };
        init = none;
        rules =
            record {
              p = record { filename = []; line = 1; col = 1; off = 0 };
              name = record {
                p = record { filename = []; line = 1; col = 1; off = 0 };
                val = codes "A";
              };
              display_name = none;
              expr = Ast.any_matcher (record {
                p = record { filename = []; line = 1; col = 3; off = 2 };
                val = codes ".";
              });
            }
            ∷ [];
      },
      [],
    )
unfolding parse_file scan init size_of read repeat exp.Bootstrap.Parser.skip
    exp.Bootstrap.Scanner.skip_whitespace exp.Bootstrap.Scanner.is_letter
    exp.Bootstrap.Scanner.Bodies.scan_identifier exp.Bootstrap.Scanner.write
    exp.Bootstrap.Scanner.is_digit Token.is_blacklisted Token.blacklisted_idents
    exp.Bootstrap.Parser.expect exp.Bootstrap.Scanner.is_rule_def_start
    exp.Bootstrap.Scanner.Bodies.scan_rule_def exp.Bootstrap.Parser.Expr.expression
    exp.Bootstrap.Parser.Expr.append_expr exp.Bootstrap.Scanner.next_pos
    exp.Bootstrap.Files.scan_next
parse_dot = refl
