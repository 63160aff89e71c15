-- ===== src/Lexer/Predicates.antt =====
-- parser/lexer/grammar.go: predicates of runes.
use exp.Base.{
  ℕ, Bool, true, false, not, ◌||◌, List, [], ◌∷◌, ◌≡◌, refl, ◌==◌, none, some, if◌then◌else◌, arith,
}
use exp.Lexer.Scan.{Rune}

abbrev pub RunePredicate : Type 0
RunePredicate = Rune → Bool

unfoldable pub eq_predicate : ℕ → RunePredicate
eq_predicate want none = false
eq_predicate want (some r) = r == want

unfoldable pub is_go_whitespace : RunePredicate
is_go_whitespace none = false
is_go_whitespace (some r) = r == 32 || r == 9 || r == 13 || r == 10

unfoldable pub is_ascii_whitespace : RunePredicate
is_ascii_whitespace none = false
is_ascii_whitespace (some r) = r == 32 || r == 9 || r == 13 || r == 10 || r == 11 || r == 12

unfoldable pub and_predicate : List RunePredicate → RunePredicate
and_predicate [] r = true
and_predicate (p ∷ ps) r = if not (p r) then false else and_predicate ps r

unfoldable pub or_predicate : List RunePredicate → RunePredicate
or_predicate [] r = false
or_predicate (p ∷ ps) r = if p r then true else or_predicate ps r

unfoldable pub not_predicate : RunePredicate → RunePredicate
not_predicate p r = not (p r)

abbrev pub negated : List RunePredicate → List RunePredicate
negated [] = []
negated (p ∷ ps) = not_predicate p ∷ negated ps

-- A disjunction is the negation of the conjunction of the negated predicates, on every rune.
pub or_predicate-and_predicate :
    (ps : List RunePredicate) (r : Rune)
    → or_predicate ps r ≡ not_predicate (and_predicate (negated ps)) r
unfolding or_predicate and_predicate not_predicate
or_predicate-and_predicate [] r = refl
or_predicate-and_predicate (p ∷ ps) r = ground (arith, or_predicate-and_predicate ps r)
