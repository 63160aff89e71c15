-- ===== src/Lexer/Run.antt =====
-- parser/lexer/lex.go: the loop over state functions, its stack, and the rest of the methods.
use exp.Base.{ℕ, zero, suc, ◌+◌, Option, none, some, List, [], ◌∷◌, Text, ℤ, negsuc, if◌then◌else◌}
use exp.Lexer.Scan.{Rune, Lexer, next, back, in_set, emit, note_error}

-- `EOF` and `Invalid`.
abbrev pub eof_token : ℤ
eof_token = negsuc 0

abbrev pub invalid_token : ℤ
invalid_token = negsuc 1

-- `Lit` and `Errorf`, with the text of the error.
abbrev pub lit_of : Lexer → Text
lit_of l = l.lit

abbrev pub errorf : Text → Lexer → Lexer
errorf e l = note_error e l

module _ (encode : Rune → Text) where
  -- `acceptManyIn`: `some` of the lexer and the count, or `none` where `Back` panics. The outer `none`
  -- is a loop that the fuel did not finish.
  unfoldable pub accept_many_in : ℕ → Text → ℕ → Lexer → Option (Option (Lexer × ℕ))
  accept_many_in zero valid n l = none
  accept_many_in (suc f) valid n l =
      let l' = (next encode l).0 in
      let more = accept_many_in f valid (n + 1) l' in
      let unread : Option (Lexer × ℕ) = elim (back encode l') [
        | none ↦ none
        | some l'' ↦ some (l'', n)
      ] in
      if in_set encode valid l'.cur then more else some unread

-- The lexer and its stack of state functions, which `S` names; the top is first.
pub record Machine (S : Type 0) : Type 0 where
  pub lexer : Lexer
  pub stack : List S

-- What a call of a state function returns: the next one, or nil; `unfinished` is a call that the fuel
-- for its own loops did not finish.
pub data Called (S : Type 0) : Type 0 where
  goes_to : S → Machine S → Called S
  returns_nil : Machine S → Called S
  unfinished : Called S

-- How `run` ends; `running` is a loop that the fuel did not finish.
pub data Ran : Type 0 where
  closed : Lexer → Ran
  running : Ran
  unfinished_call : Ran

module _ {S : Type 0} (apply : S → Machine S → Called S) where
  abbrev pub push : S → Machine S → Machine S
  push fn m = record m { stack = fn ∷ m.stack }

  -- `pop`, on the stack.
  abbrev pub pop_from : List S → Machine S → Option S × Machine S
  pop_from [] m = (none, m)
  pop_from (fn ∷ st) m = (some fn, record m { stack = st })

  abbrev pub pop : Machine S → Option S × Machine S
  pop m = pop_from m.stack m

  -- A round that has a state function, or that pops one.
  abbrev pub after_call : Called S → (Option S → Machine S → Ran) → Ran
  after_call (goes_to fn m) k = k (some fn) m
  after_call (returns_nil m) k = k none m
  after_call unfinished k = unfinished_call

  abbrev pub popped_round : Option S × Machine S → (Option S → Machine S → Ran) → Ran
  popped_round (none, m) k = closed (emit eof_token [] m.lexer)
  popped_round (some fn, m) k = after_call (apply fn m) k

  abbrev pub run_round : Option S → Machine S → (Option S → Machine S → Ran) → Ran
  run_round none m k = popped_round (pop m) k
  run_round (some fn) m k = after_call (apply fn m) k

  unfoldable pub run_loop : ℕ → Option S → Machine S → Ran
  run_loop zero fn m = running
  run_loop (suc f) fn m = run_round fn m (run_loop f)

  unfoldable pub run : ℕ → S → Lexer → Ran
  unfolding run_loop
  run f start l = run_loop f none (push start (record { lexer = l; stack = [] }))
