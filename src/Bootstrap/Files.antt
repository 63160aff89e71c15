-- ===== src/Bootstrap/Files.antt =====
-- peg/bootstrap/parser.go: the parser on the scanner of a file.
use exp.Base.{
  ℕ, zero, suc, ◌*◌, ◌<◌, ◌≡◌, refl, Option, none, some, List, [], Text, arith, inl, inr, Ends,
}
use exp.Lexer.Scan.{Ending}
use exp.Peg.Ast.{Grammar}
use exp.Bootstrap.Token
use exp.Bootstrap.Token.{Token}
use exp.Bootstrap.Scanner.{Scanner, Host, init}
use exp.Bootstrap.Scanner.Scan.{scan}
use exp.Bootstrap.Scanner.Progress.{size, in_sync, Sync}
use exp.Bootstrap.Scanner.Progress.Scan.{Advances, scan-Advances}
use exp.Bootstrap.Parser.{Scanned, ErrList}
use exp.Bootstrap.Parser.Expr.{Library}
use exp.Bootstrap.Parser.Rules.{parse}

-- The scanner with its log of errors begun again.
abbrev pub fresh : Scanner → Scanner
fresh s = record s { errs = [] }

-- `p.s.Scan()`, with fuel for what is left of the file.
unfoldable pub scan_next : Host → Scanner → Option (Token × Scanner)
scan_next host s = scan host (suc (2 * size s)) (fresh s)

-- A scanner of which no rune is current behind the end of the file, as `Init` leaves it and each `Scan`.
abbrev pub Synced : Type 0
Synced = (s : Scanner) × Sync s

pub scan_next-Advances :
    (host : Host) (s : Scanner)
    → Sync s
    → (r : Token × Scanner) × (scan_next host s ≡ some r) × Advances (size s) r
unfolding scan_next
scan_next-Advances host s h = scan-Advances host (suc (2 * size s)) (fresh s) h (omega arith)

-- What a scan that ends returns, with what holds of it.
unfoldable pub value_of :
    {A : Type 0} → (P : A → Type 0) → (o : Option A) → Ends P o → (a : A) × P a
value_of P none (a, e, p) = (a, p)
value_of P (some a) (b, e, p) = let same : a ≡ b = cc in (a, rw same p)

-- The scanner for the parser: each scan ends, and its errors go to the handler, which is the parser's
-- list of errors.
unfoldable pub next_token : Host → Synced → Scanned Synced
unfolding value_of
next_token host (s, h) =
    let (r, a) = value_of (Advances (size s)) (scan_next host s) (scan_next-Advances host s h) in
    record { token = r.0; errors = r.1.errs; rest = (r.1, a.0) }

pub init-Sync :
    (filename : Text) (source : List (ℕ × ℕ)) (ending : Ending) → Sync (init filename source ending)
unfolding init in_sync
init-Sync filename source ending = refl

-- `Parse` on the runes of a file.
unfoldable pub parse_file :
    Host → Library → ℕ → Text → List (ℕ × ℕ) → Ending → Option (Grammar × ErrList)
unfolding next_token parse
parse_file host lib f filename source ending =
    parse (next_token host) lib f (init filename source ending, init-Sync filename source ending)

-- The token that `Scan` returns behind `k` others; none if it or a scan before it does not end.
abbrev token_behind : Host → ℕ → Option (Token × Scanner) → Option Token
token_behind host k none = none
token_behind host zero (some (t, s)) = some t
token_behind host (suc k) (some (t, s)) = token_behind host k (scan_next host s)

abbrev pub token_at : Host → ℕ → Scanner → Option Token
token_at host k s = token_behind host k (scan_next host s)

-- The scanner comes to the end of the file: from a scanner at which no rune is current behind the end of
-- the file, one of the next `n` calls of `Scan` returns the token `eof`, and each call before it
-- returns, if `n` is more than the runes that are left and one.
pub token_at-eof :
    (host : Host) (n : ℕ) (s : Scanner)
    → Sync s
    → size s < n
    → (k : ℕ) × (k < n) × (t : Token) × (token_at host k s ≡ some t) × (t.id ≡ Token.eof)
token_at-eof host zero s h lt = absurd (omega arith)
token_at-eof host (suc n) s h lt =
    go (scan_next-Advances host s h) (λ s' sync less. token_at-eof host n s' sync less)
  where
    go :
        (r : Token × Scanner) × (scan_next host s ≡ some r) × Advances (size s) r
        → ((s' : Scanner)
            → Sync s'
            → size s' < n
            → (k : ℕ) × (k < n) × (t : Token) × (token_at host k s' ≡ some t) × (t.id ≡ Token.eof))
        → (k : ℕ) × (k < suc n) × (t : Token) × (token_at host k s ≡ some t) × (t.id ≡ Token.eof)
    go ((t, s'), q, (sync, inl (e, done))) later = (0, omega arith, t, rw q refl, e)
    go ((t, s'), q, (sync, inr less)) later =
        let (k, bound, u, at, e) = later s' sync (omega arith) in
        (suc k, omega arith, u, rw q at, e)
