-- ===== src/Bootstrap/Parser/RoundTrip/Grammar.antt =====
-- The parser on the tokens of a grammar as it is written.
use exp.Base.{
  ℕ, zero, suc, ◌<◌, true, false, Option, none, some, List, [], ◌∷◌, ◌++◌, Text, codes, ◌≡◌, refl,
  int_eq, ◌⊎◌, ◌∙◌, length, arith, append_assoc, append-nil,
}
use exp.Peg.Ast.{Pos, Grammar}
use exp.Bootstrap.Token
use exp.Bootstrap.Token.{Tid, Token}
use exp.Bootstrap.Parser.{Parser, zero_token, is_one_of}
use exp.Bootstrap.Parser.Expr.{Library}
use exp.Bootstrap.Parser.Rules.{separators, grammar_loop, with_init, grammar, parse, with_errors}
use exp.Bootstrap.Parser.Concrete.{token}
use exp.Bootstrap.Parser.Readable.{Readable}
use exp.Bootstrap.Parser.Source.{scan_list, at, read-held}
use exp.Bootstrap.Parser.Written.{
  Separator, line_break, semicolon, separator_tokens, Definition, Definitions, none_left, last,
  definition, File, definition_tokens, definitions_tokens, init_tokens, file_tokens,
  definition_tree, rule_trees, init_tree, DisplayReadable, DefinitionsReadable, definition_size,
  definitions_size, init_size, file_size,
}
use exp.Bootstrap.Parser.RoundTrip.First
use exp.Bootstrap.Parser.RoundTrip.First.{
  Behind, behind_tid, Fresh-tokens, NoBreak-tokens, suc_line,
}
use exp.Bootstrap.Parser.RoundTrip.Skips.{Halts, OnLine-separators, skip-separators, terminators}
use exp.Bootstrap.Parser.RoundTrip.Rule.{rule_reads}

module _ (lib : Library) where
  abbrev end_tokens : Pos → List Token
  end_tokens p = token Token.eof [] p ∷ []

  -- What the loop leaves: it is at the end, once or behind it.
  abbrev AtEnd : Pos → Grammar → Option (Grammar × Parser (List Token)) → Type 0
  AtEnd p g r = (r ≡ some (g, at (end_tokens p) [])) ⊎ (r ≡ some (g, at [] []))

  Halts-definitions :
      (ds : Definitions) (p : Pos) → Halts separators (definitions_tokens ds (end_tokens p))
  unfolding is_one_of
  Halts-definitions none_left p = (suc_line p, refl)
  Halts-definitions (last d) p = (suc_line d.p, refl)
  Halts-definitions (definition d s ss ds) p = (suc_line d.p, refl)

  loop_ends :
      (n f : ℕ) (g : Grammar) (ts : List Token)
      → int_eq (scan_list ts).token.id Token.eof ≡ true
      → 0 < n
      → grammar_loop scan_list lib n f g (at ts []) ≡ some (g, at ts [])
  unfolding grammar_loop
  loop_ends zero f g ts h lt = absurd (omega arith)
  loop_ends (suc n) f g ts h lt = rw h refl

  -- A rule is read and appended, and the loop goes on behind its terminator and the separators.
  loop_reads-rule :
      (n f : ℕ) (g : Grammar) (d : Definition) (k : Behind) (lit : Text) (p : Pos)
      (ss : List Separator) (ts : List Token)
      → DisplayReadable lib d.display
      → Readable lib d.body
      → is_one_of terminators (behind_tid k) ≡ true
      → int_eq (behind_tid k) Token.code ≡ false
      → int_eq (behind_tid k) Token.slash ≡ false
      → definition_size d < f
      → length ss < f
      → Halts separators ts
      → grammar_loop scan_list lib
          (suc n)
          f
          g
          (at (definition_tokens d (token (behind_tid k) lit p ∷ (separator_tokens ss ++ ts))) [])
        ≡ grammar_loop scan_list lib n f
            (record g { rules = g.rules ++ definition_tree d ∷ [] })
            (at ts [])
  unfolding grammar_loop
  loop_reads-rule n f g d k lit p ss ts u r h hc hs lt ls halts =
      rw
        (
          rule_reads lib f d k lit p (separator_tokens ss ++ ts) [] u r h hc hs lt,
          read-held false (token (behind_tid k) lit p) (separator_tokens ss ++ ts) []
              (OnLine-separators ss ts halts.0),
          skip-separators ss f ts [] halts ls,
        )
        refl

  -- The grammar is the result, without errors.
  abbrev Gives : Grammar → Option (Grammar × Parser (List Token)) → Type 0
  Gives g r = (q : Parser (List Token)) × (r ≡ some (g, q)) × (q.errs ≡ [])

  loop_reads :
      (n f : ℕ) (ds : Definitions) (g : Grammar) (p : Pos)
      → DefinitionsReadable lib ds
      → definitions_size ds < n
      → definitions_size ds < f
      → Gives
          (record g { rules = g.rules ++ rule_trees ds })
          (grammar_loop scan_list lib n f g (at (definitions_tokens ds (end_tokens p)) []))
  unfolding is_one_of
  loop_reads n f none_left g p r ln lf =
      rw (append-nil g.rules) (at (end_tokens p) [], loop_ends n f g (end_tokens p) refl ln, refl)
  loop_reads zero f (last d) g p r ln lf = absurd (omega arith)
  loop_reads (suc n) f (last d) g p (u, r) ln lf = (
    at [] [],
    loop_reads-rule n f g d First.eof [] p [] [] u r refl refl refl (omega arith) (omega arith)
          (refl, refl)
        ∙ loop_ends n f (record g { rules = g.rules ++ definition_tree d ∷ [] }) [] refl
            (omega arith),
    refl,
  )
  loop_reads zero f (definition d s ss ds) g p r ln lf = absurd (omega arith)
  loop_reads (suc n) f (definition d (line_break p') ss ds) g p (u, r, rs) ln lf =
      rw
        (
          loop_reads-rule n f g d First.eol (codes "\n") p' ss
              (definitions_tokens ds (end_tokens p)) u r refl refl refl (omega arith) (omega arith)
              (Halts-definitions ds p),
          ← append_assoc g.rules (definition_tree d ∷ []) (rule_trees ds),
        )
        (loop_reads n f ds (record g { rules = g.rules ++ definition_tree d ∷ [] }) p rs
          (omega arith) (omega arith))
  loop_reads (suc n) f (definition d (semicolon p') ss ds) g p (u, r, rs) ln lf =
      rw
        (
          loop_reads-rule n f g d First.semicolon (codes ";") p' ss
              (definitions_tokens ds (end_tokens p)) u r refl refl refl (omega arith) (omega arith)
              (Halts-definitions ds p),
          ← append_assoc g.rules (definition_tree d ∷ []) (rule_trees ds),
        )
        (loop_reads n f ds (record g { rules = g.rules ++ definition_tree d ∷ [] }) p rs
          (omega arith) (omega arith))

  no_code :
      (ds : Definitions) (p : Pos)
      → int_eq (scan_list (definitions_tokens ds (end_tokens p))).token.id Token.code ≡ false
  no_code none_left p = refl
  no_code (last d) p = refl
  no_code (definition d s ss ds) p = refl

  init_reads :
      (f : ℕ) (init : Option (Pos × Text × List Separator)) (ds : Definitions) (pos : Pos) (p : Pos)
      → DefinitionsReadable lib ds
      → init_size init < f
      → definitions_size ds < f
      → Gives
          (record { p = pos; init = init_tree init; rules = rule_trees ds })
          (with_init scan_list lib f
            (grammar_loop scan_list lib f f)
            (record { p = pos; init = none; rules = [] })
            (at (init_tokens init (definitions_tokens ds (end_tokens p))) []))
  init_reads f none ds pos p r li ld =
      rw (no_code ds p) (loop_reads f f ds (record { p = pos; init = none; rules = [] }) p r ld ld)
  init_reads f (some (p', text, ss)) ds pos p r li ld =
      let behind = definitions_tokens ds (end_tokens p) in
      rw
        (
          read-held false (token Token.code text p') (separator_tokens ss ++ behind) []
              (OnLine-separators ss behind (Halts-definitions ds p).0),
          skip-separators ss f behind [] (Halts-definitions ds p) li,
        )
        (loop_reads f f ds (record { p = pos; init = init_tree (some (p', text, ss)); rules = [] })
          p r ld ld)

  Halts-init :
      (init : Option (Pos × Text × List Separator)) (ds : Definitions) (p : Pos)
      → Halts separators (init_tokens init (definitions_tokens ds (end_tokens p)))
  unfolding is_one_of
  Halts-init none ds p = Halts-definitions ds p
  Halts-init (some (p', text, ss)) ds p = (suc_line p', refl)

  parsed :
      (g : Grammar) (r : Option (Grammar × Parser (List Token)))
      → Gives g r
      → with_errors r ≡ some (g, [])
  parsed g r (q, e, h) = rw (e, h) refl

-- The syntax tree of a file, at the position of its first token.
abbrev pub file_tree : File → Grammar
file_tree g = record {
  p = (scan_list (file_tokens g)).token.pos;
  init = init_tree g.init;
  rules = rule_trees g.definitions;
}

-- A grammar is parsed back: if the source of tokens is a grammar as it is written (separators, maybe a
-- code block, and rules, each with the separators behind it), if the library reads the texts of its
-- literals and classes as they are meant and its names to display have no `i`, and if the fuel is
-- above the size of the grammar, then `Parse` returns, and it returns the tree of this grammar and no
-- error.
pub parse-file_tokens :
    (lib : Library) (g : File) (f : ℕ)
    → DefinitionsReadable lib g.definitions
    → file_size g < f
    → parse scan_list lib f (file_tokens g) ≡ some (file_tree g, [])
unfolding parse grammar
parse-file_tokens lib g f r lt =
    let behind = init_tokens g.init (definitions_tokens g.definitions (end_tokens lib g.end_p)) in
    let halts = Halts-init lib g.init g.definitions g.end_p in
    rw
      (
        read-held false zero_token (file_tokens g) [] (OnLine-separators g.before behind halts.0),
        skip-separators g.before f behind [] halts (omega arith),
      )
      (parsed lib (file_tree g)
        (with_init scan_list lib f (grammar_loop scan_list lib f f)
          (record { p = (scan_list (file_tokens g)).token.pos; init = none; rules = [] })
          (at behind []))
        (init_reads lib f g.init g.definitions (scan_list (file_tokens g)).token.pos g.end_p r
          (omega arith) (omega arith)))
