-- ===== src/Lexer/Scan.antt =====
-- parser/lexer/lex.go: the lexer and its methods. A rune is `none` for the code's -1. The source is
-- the list of the runes that `ReadRune` will return, with their widths, and the error behind them.
pub mod Positions
pub mod Unread
pub mod Skips
use exp.Base.{
  ℕ, zero, suc, ◌+◌, Bool, true, false, Option, none, some, List, [], ◌∷◌, ◌++◌, Text, codes, ◌==◌,
  if◌then◌else◌, ◌&&◌, ℤ,
}

abbrev pub Rune : Type 0
Rune = Option ℕ

-- `read_off` is `Off + 1`, since `Off` starts at -1.
pub record Pos : Type 0 where
  pub name : Text
  pub line : ℕ
  pub col : ℕ
  pub read_off : ℕ

pub record Token : Type 0 where
  pub id : ℤ
  pub lit : Text
  pub pos : Pos

-- How the source ends: by `io.EOF` or by another error.
pub data Ending : Type 0 where
  eof_error : Ending
  read_error : Text → Ending

-- `ch` lists the tokens that were emitted, `errors` the errors that were printed.
pub record Lexer : Type 0 where
  pub source : List (ℕ × ℕ)
  pub ending : Ending
  pub eof : Bool
  pub ch : List Token
  pub lit : Text
  pub intok : Bool
  pub tpos : Pos
  pub cpos : Pos
  pub ppos : Pos
  pub cur : Rune
  pub pv : Rune
  pub errors : List Text

abbrev pub zero_pos : Pos
zero_pos = record { name = []; line = 0; col = 0; read_off = 0 }

-- `Init`, without the start of `run`.
unfoldable pub init : Text → List (ℕ × ℕ) → Ending → Lexer
init name source ending = record {
  source = source;
  ending = ending;
  eof = false;
  ch = [];
  lit = [];
  intok = false;
  tpos = zero_pos;
  cpos = record { name = name; line = 1; col = 0; read_off = 0 };
  ppos = zero_pos;
  cur = none;
  pv = none;
  errors = [];
}

unfoldable pub emit : ℤ → Text → Lexer → Lexer
emit id lit l = record l {
  ch = l.ch ++ (record { id = id; lit = lit; pos = l.tpos }) ∷ [];
  lit = [];
  intok = false;
}

abbrev pub note_error : Text → Lexer → Lexer
note_error e l = record l { errors = l.errors ++ e ∷ [] }

abbrev pub noting : Ending → Lexer → Lexer
noting eof_error l = l
noting (read_error e) l = note_error e l

unfoldable pub fatal_error : Ending → Lexer → Lexer
fatal_error e l = noting e (record l { cur = none; eof = true })

-- The position behind a rune of the width `w`; carriage returns do not count as columns.
unfoldable pub advance : Pos → ℕ → ℕ → Pos
advance p rn w =
    let moved : Pos = record p { read_off = p.read_off + w } in
    if rn == 10
    then record moved { line = p.line + 1; col = 0 }
    else if rn == 13
    then moved
    else record moved { col = p.col + 1 }

-- `encode` is the text that `WriteRune` writes, for -1 too.
module _ (encode : Rune → Text) where
  -- `Next` on the runes that are left. The rune is in `cur`, the flag tells whether it was read.
  abbrev pub next_in : List (ℕ × ℕ) → Lexer → Lexer × Bool
  next_in [] l = (fatal_error l.ending l, false)
  next_in ((rn, w) ∷ source) l =
      let lit = if l.intok then l.lit ++ encode (some rn) else l.lit in
      (
        record l {
          source = source;
          pv = l.cur;
          ppos = l.cpos;
          cur = some rn;
          cpos = advance l.cpos rn w;
          lit = lit;
        },
        true,
      )

  unfoldable pub next : Lexer → Lexer × Bool
  next l = if l.eof then (l, false) else next_in l.source l

  unfoldable pub start_token : Lexer → Lexer
  start_token l = record l { tpos = l.cpos; lit = l.lit ++ encode l.cur; intok = true }

  -- `buf.Truncate(buf.Len() - 1)`, which panics on an empty buffer.
  abbrev pub truncate_one : Text → Option Text
  truncate_one [] = none
  truncate_one (b ∷ []) = some []
  truncate_one (b ∷ c ∷ bs) = elim (truncate_one (c ∷ bs)) [ none ↦ none | some t ↦ some (b ∷ t) ]

  -- `Back`; `none` is the panic. After the error on a missing rune it goes on.
  abbrev pub no_rune : Rune → Lexer → Lexer
  no_rune none l =
      fatal_error (read_error (codes "lexer: invalid call to back: no previous rune")) l
  no_rune (some r) l = l

  unfoldable pub back : Lexer → Option Lexer
  back l =
      let l₁ = no_rune l.pv l in
      let l₂ : Lexer = record l₁ { cur = l₁.pv; cpos = l₁.ppos; pv = none } in
      if l₂.intok
      then elim (truncate_one l₂.lit) [ none ↦ none | some t ↦ some (record l₂ { lit = t }) ]
      else some l₂

  -- How a loop over the runes ends; `out_of_fuel` belongs to the model only.
  pub data Looped : Type 0 where
    stopped : Lexer → Bool → Looped
    out_of_fuel : Looped

  -- What the loops do with the result of `Next`.
  abbrev pub going_on : Lexer × Bool → (Lexer → Looped) → Looped
  going_on (l, true) k = k l
  going_on (l, false) k = stopped l false

  unfoldable pub skip_while : ℕ → (Rune → Bool) → Lexer → Looped
  skip_while zero p l = out_of_fuel
  skip_while (suc f) p l = elim (p l.cur) [
    | true ↦ going_on (next l) (λ l'. skip_while f p l')
    | false ↦ stopped l true
  ]

  unfoldable pub skip_until : ℕ → (Rune → Bool) → Lexer → Looped
  skip_until zero p l = out_of_fuel
  skip_until (suc f) p l = elim (p l.cur) [
    | true ↦ stopped l true
    | false ↦ going_on (next l) (λ l'. skip_until f p l')
  ]

  abbrev pub is_rune : Rune → ℕ → Bool
  is_rune none want = false
  is_rune (some r) want = r == want

  unfoldable pub expect : Text → (ℕ → Text) → Lexer → Lexer × Bool
  unfolding next
  expect [] message l = (l, true)
  expect (want ∷ wants) message l =
      let rest = expect wants message (next l).0 in
      if (next l).1 && is_rune (next l).0.cur want
      then rest
      else (note_error (message want) (next l).0, false)

  unfoldable pub in_set : Text → Rune → Bool
  in_set [] r = false
  in_set (v ∷ valid) r = if is_rune r v then true else in_set valid r

  -- `acceptOneIn`; `none` is the panic of `Back`.
  unfoldable pub accept_one_in : Text → Lexer → Option (Lexer × Bool)
  unfolding next back in_set
  accept_one_in valid l =
      let l' = (next l).0 in
      let unread : Option (Lexer × Bool) = elim (back l') [
        | none ↦ none
        | some l'' ↦ some (l'', false)
      ] in
      if in_set valid l'.cur then some (l', true) else unread
