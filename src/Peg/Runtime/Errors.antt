-- ===== src/Peg/Runtime/Errors.antt =====
-- peg/builder/static_code.go: `ParserError` and `errList`. A Go error is the text of its message.
-- The field `pos`, which is never set, is left out.
pub mod Dedupe
use exp.Base.{ℕ, Bool, true, false, List, [], ◌∷◌, ◌++◌, Text, codes, text_eq, if◌then◌else◌, ◌||◌}

pub record ParserError : Type 0 where
  pub inner : Text
  pub prefix : Text

-- `(*ParserError).Error`
unfoldable pub message : ParserError → Text
message e = e.prefix ++ codes ": " ++ e.inner

abbrev pub ErrList : Type 0
ErrList = List ParserError

unfoldable pub add : ErrList → ParserError → ErrList
add es e = es ++ e ∷ []

-- The key test of the map `set`, whose keys are the messages met so far.
pub is_set : Text → List Text → Bool
is_set m [] = false
is_set m (k ∷ ks) = text_eq m k || is_set m ks

-- The loop of `dedupe`, from the keys in `set` on.
pub dedupe_from : List Text → ErrList → ErrList
unfolding is_set message
dedupe_from set [] = []
dedupe_from set (e ∷ es) =
    let cleaned = e ∷ dedupe_from (message e ∷ set) es in
    let rest = dedupe_from set es in if is_set (message e) set then rest else cleaned

unfoldable pub dedupe : ErrList → ErrList
unfolding dedupe_from
dedupe es = dedupe_from [] es

-- `err`: the empty list stands for the nil error.
unfoldable pub err : ErrList → ErrList
unfolding dedupe
err [] = []
err (e ∷ es) = dedupe (e ∷ es)

-- The messages behind the first, each after a line break.
lines_after : ErrList → Text
unfolding message
lines_after [] = []
lines_after (e ∷ es) = 10 ∷ (message e ++ lines_after es)

-- `(*errList).Error`
unfoldable pub error_text : ErrList → Text
unfolding message lines_after
error_text [] = []
error_text (e ∷ []) = message e
error_text (e ∷ es) = message e ++ lines_after es
