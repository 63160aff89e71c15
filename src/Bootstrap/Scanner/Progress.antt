-- ===== src/Bootstrap/Scanner/Progress.antt =====
-- peg/bootstrap/scan.go: each call of `Scan` ends, with one rune less to read or at the end of the file.
pub mod Bodies
pub mod Quoted
pub mod Chars
pub mod Scan
use exp.Base.{
  ℕ, suc, ◌+◌, ◌≤◌, ◌<◌, ◌≡◌, refl, ap, sym, ◌∙◌, Bool, true, false, Option, none, some, List, [],
  ◌∷◌, arith, length, if◌then◌else◌, Bool-cases, inl, inr,
}
use exp.Lexer.Scan.{Rune, Ending, eof_error, read_error}
use exp.Bootstrap.Scanner.{Scanner, read, read_in, fatal_error, at_end, skip_whitespace}

-- The runes that are not read yet, and one more for the end of the file.
unfoldable pub size_of : Bool → List (ℕ × ℕ) → ℕ
size_of true source = 0
size_of false source = suc (length source)

abbrev pub size : Scanner → ℕ
size s = size_of s.eof s.source

-- There is no current rune behind the end of the file.
unfoldable pub in_sync : Bool → Rune → Bool
in_sync true r = at_end r
in_sync false r = true

abbrev pub Sync : Scanner → Type 0
Sync s = in_sync s.eof s.cur ≡ true

abbrev pub one_unless : Bool → ℕ
one_unless true = 0
one_unless false = 1

-- What one read does to the measure: it shrinks if there is a rune before the read or behind it.
pub record Reads (s s' : Scanner) : Type 0 where
  pub sync : Sync s'
  pub shrinks : size s' + one_unless (at_end s.cur) ≤ size s
  pub shrinks_to : size s' + one_unless (at_end s'.cur) ≤ size s

pub at_end-Sync : (s : Scanner) → Sync s → s.eof ≡ true → at_end s.cur ≡ true
unfolding in_sync
at_end-Sync s h e = sym (ap (λ b. in_sync b s.cur) e) ∙ h

pub one_unless-le : (b : Bool) → one_unless b ≤ 1
one_unless-le true = omega arith
one_unless-le false = omega arith

size-open :
    (s : Scanner) (rs : List (ℕ × ℕ)) → s.eof ≡ false → s.source ≡ rs → size s ≡ suc (length rs)
unfolding size_of
size-open s rs e h = ap (λ b. size_of b s.source) e ∙ ap (λ r. suc (length r)) h

fatal_error-Reads : (e : Ending) (s : Scanner) → 1 ≤ size s → Reads s (fatal_error e s)
unfolding size_of in_sync
fatal_error-Reads eof_error s h = record {
  sync = refl;
  shrinks = omega (arith, one_unless-le (at_end s.cur));
  shrinks_to = omega arith;
}
fatal_error-Reads (read_error t) s h = record {
  sync = refl;
  shrinks = omega (arith, one_unless-le (at_end s.cur));
  shrinks_to = omega arith;
}

read_in-Reads :
    (rs : List (ℕ × ℕ)) (s : Scanner) → s.eof ≡ false → s.source ≡ rs → Reads s (read_in rs s)
unfolding in_sync
read_in-Reads [] s e h = fatal_error-Reads s.ending s (omega (arith, size-open s [] e h))
read_in-Reads ((r, w) ∷ rs) s e h =
    let m : size (read_in ((r, w) ∷ rs) s) ≡ suc (length rs) =
      size-open (read_in ((r, w) ∷ rs) s) rs e refl in
    record {
      sync = ap (λ b. in_sync b (some r)) e;
      shrinks = omega (arith, one_unless-le (at_end s.cur), size-open s ((r, w) ∷ rs) e h);
      shrinks_to = omega (arith, size-open s ((r, w) ∷ rs) e h);
    }

same-Reads : (s : Scanner) → Sync s → s.eof ≡ true → Reads s s
same-Reads s h e =
    let q : one_unless (at_end s.cur) ≡ 0 = ap one_unless (at_end-Sync s h e) in
    record { sync = h; shrinks = omega arith; shrinks_to = omega arith }

pub read-Reads : (s : Scanner) → Sync s → Reads s (read s)
unfolding read
read-Reads s h = elim (Bool-cases s.eof) [
  | inl e ↦
      let q : read s ≡ s = ap (λ b. if b then s else read_in s.source s) e in
      rw q (same-Reads s h e)
  | inr e ↦
      let q : read s ≡ read_in s.source s = ap (λ b. if b then s else read_in s.source s) e in
      rw q (read_in-Reads s.source s e refl)
]

pub read-Sync : (s : Scanner) → Sync s → Sync (read s)
read-Sync s h = (read-Reads s h).sync

pub read-le : (s : Scanner) → Sync s → size (read s) ≤ size s
read-le s h = let r = read-Reads s h in omega arith

-- A read from a rune, or to a rune, leaves less to read.
pub read-lt : (s : Scanner) → Sync s → at_end s.cur ≡ false → size (read s) < size s
read-lt s h e = let r = read-Reads s h in let q = ap one_unless e in omega arith

pub read_to-lt : (s : Scanner) → Sync s → at_end (read s).cur ≡ false → size (read s) < size s
read_to-lt s h e = let r = read-Reads s h in let q = ap one_unless e in omega arith

-- The end of the file is where there is no current rune. This is so once a rune was asked for.
abbrev pub InStep : Scanner → Type 0
InStep s = s.eof ≡ at_end s.cur

pub InStep-Sync : (s : Scanner) → InStep s → Sync s
unfolding in_sync
InStep-Sync s h = elim (Bool-cases s.eof) [
  | inl e ↦ ap (λ b. in_sync b s.cur) e ∙ sym h ∙ e
  | inr e ↦ ap (λ b. in_sync b s.cur) e
]

fatal_error-InStep : (e : Ending) (s : Scanner) → InStep (fatal_error e s)
fatal_error-InStep eof_error s = refl
fatal_error-InStep (read_error t) s = refl

read_in-InStep : (rs : List (ℕ × ℕ)) (s : Scanner) → s.eof ≡ false → InStep (read_in rs s)
read_in-InStep [] s e = fatal_error-InStep s.ending s
read_in-InStep ((r, w) ∷ rs) s e = e

pub read_open-InStep : (s : Scanner) → s.eof ≡ false → InStep (read s)
unfolding read
read_open-InStep s e =
    let q : read s ≡ read_in s.source s = ap (λ b. if b then s else read_in s.source s) e in
    rw q (read_in-InStep s.source s e)
