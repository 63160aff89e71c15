-- ===== src/Bootstrap/Parser/Source.antt =====
-- A parser on a list of tokens: its states, and what reading and peeking make of them.
use exp.Base.{Bool, true, false, List, [], ◌∷◌, ◌≡◌, refl, ◌==◌, append-nil}
use exp.Bootstrap.Token.{Token, eof}
use exp.Bootstrap.Parser.{Scanned, Parser, ErrList, zero_token, read, peek}

-- The source gives its tokens, and at its end this token again and again.
abbrev pub end_token : Token
end_token = record {
  id = eof;
  lit = [];
  pos = record { filename = []; line = 1; col = 0; off = 0 };
}

abbrev pub scan_list : List Token → Scanned (List Token)
scan_list [] = record { token = end_token; errors = []; rest = [] }
scan_list (t ∷ ts) = record { token = t; errors = []; rest = ts }

abbrev pub source_of : Bool → List Token → List Token
source_of true ts = (scan_list ts).rest
source_of false ts = ts

abbrev pub peeked : Bool → List Token → Token
peeked true ts = (scan_list ts).token
peeked false ts = zero_token

-- At the token `t` with `ts` behind it; `true` where the token behind has been peeked at.
abbrev pub held : Bool → Token → List Token → ErrList → Parser (List Token)
held b t ts errs = record { s = source_of b ts; tok = t; pk = peeked b ts; errs = errs }

abbrev pub hold : Bool → List Token → ErrList → Parser (List Token)
hold b ts errs = held b (scan_list ts).token (scan_list ts).rest errs

abbrev pub at : List Token → ErrList → Parser (List Token)
at = hold false

abbrev pub OnLine : List Token → Type 0
OnLine ts = ((scan_list ts).token.pos.line == 0) ≡ false

pub read-held :
    (b : Bool) (t : Token) (ts : List Token) (errs : ErrList)
    → OnLine ts
    → read scan_list (held b t ts errs) ≡ at ts errs
unfolding read
read-held true t ts errs l = rw l refl
read-held false t [] errs l = rw (append-nil errs) refl
read-held false t (u ∷ ts) errs l = rw (append-nil errs) refl

pub peek-held :
    (t : Token) (ts : List Token) (errs : ErrList)
    → peek scan_list (held false t ts errs) ≡ held true t ts errs
unfolding peek
peek-held t [] errs = rw (append-nil errs) refl
peek-held t (u ∷ ts) errs = rw (append-nil errs) refl
