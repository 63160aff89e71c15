-- ===== src/Base/Loop.antt =====
-- Loops as the repetition of a body, with one rule for the invariant and the end.
use Prim.Native.Nat.{ℕ, zero, suc, ◌<◌}
use mathlib.Core.Path.{◌≡◌, refl}
use mathlib.Core.Option.{Option, none, some}
use mathlib.Core.Bool.{Bool, true, false}
use exp.Base.Tests.{if◌then◌else◌}
use native.Mathlib.Omega.{arith}

-- What a round of a loop does: `again` for the next round, `stop` for a break or a return.
pub data Round (S A : Type 0) : Type 0 where
  again : S → Round S A
  stop : A → Round S A

-- The loop ends, with a good result.
abbrev pub Ends : {A : Type 0} → (A → Type 0) → Option A → Type 0
Ends {A} Q r = (a : A) × (r ≡ some a) × Q a

-- What holds of both branches, each where it is taken, holds of a conditional.
pub if-All :
    {A : Type 0} (Q : A → Type 0) (b : Bool) (x y : A)
    → (b ≡ true → Q x)
    → (b ≡ false → Q y)
    → Q (if b then x else y)
if-All Q true x y hx hy = hx refl
if-All Q false x y hx hy = hy refl

module _ {S A : Type 0} where
  abbrev next_round : Round S A → (S → Option A) → Option A
  next_round (again s) k = k s
  next_round (stop a) k = some a

  -- `none` is a loop that the fuel did not finish.
  unfoldable pub repeat : ℕ → (S → Round S A) → S → Option A
  repeat zero body s = none
  repeat (suc f) body s = next_round (body s) (repeat f body)

  -- The round goes on, with the invariant and a smaller measure, or it stops with a good result.
  abbrev pub Good : (S → Type 0) → (S → ℕ) → (A → Type 0) → ℕ → Round S A → Type 0
  Good P measure Q n (again s) = P s × (measure s < n)
  Good P measure Q n (stop a) = Q a

  -- A round that branches is good if both branches are, each where it is taken.
  pub if-Good :
      (P : S → Type 0) (measure : S → ℕ) (Q : A → Type 0) (n : ℕ) (b : Bool) (x y : Round S A)
      → (b ≡ true → Good P measure Q n x)
      → (b ≡ false → Good P measure Q n y)
      → Good P measure Q n (if b then x else y)
  if-Good P measure Q n b x y hx hy = if-All (Good P measure Q n) b x y hx hy

  module _ (P : S → Type 0) (measure : S → ℕ) (Q : A → Type 0) (body : S → Round S A)
      (keep : (s : S) → P s → Good P measure Q (measure s) (body s)) where
    -- If the first round is good and a good round follows on each state of the invariant, then a
    -- loop with fuel above the measure ends with a good result.
    pub repeat-Ends :
        (f : ℕ) (s : S)
        → measure s < f
        → Good P measure Q (measure s) (body s)
        → Ends Q (repeat f body s)
    unfolding repeat
    repeat-Ends zero s m g = absurd (omega arith)
    repeat-Ends (suc f) s m g =
        go (body s) g (λ s' p lt. repeat-Ends f s' (omega arith) (keep s' p))
      where
        go :
            (r : Round S A)
            → Good P measure Q (measure s) r
            → ((s' : S) → P s' → measure s' < measure s → Ends Q (repeat f body s'))
            → Ends Q (next_round r (repeat f body))
        go (again s') (p, lt) rest = rest s' p lt
        go (stop a) q rest = (a, refl, q)
