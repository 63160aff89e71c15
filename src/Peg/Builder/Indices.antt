-- ===== src/Peg/Builder/Indices.antt =====
-- peg/builder/builder.go: the numbers that the builder gives to the nodes with a code block.
use exp.Base.{ℕ, suc, ◌+◌, ◌<◌, ◌≤◌, ◌≡◌, List, [], ◌∷◌, ◌++◌, arith}
use exp.Peg.Ast
use exp.Peg.Ast.{Expression, Expressions}
use exp.Peg.Builder.{Host, Builder}
use exp.Peg.Builder.Nodes.{write_expr}
use exp.Peg.Builder.Nodes.Emits.{expr-Emits}
use exp.Peg.Builder.Lowered.{size, sizes, number, numbers}

-- The `FuncIx` of the nodes with a code block, from the left.
abbrev mutual
  pub indices : Expression → List ℕ
  indices (Ast.choice_expr p es) = all_indices es
  indices (Ast.action_expr p e c ix) = ix ∷ indices e
  indices (Ast.seq_expr p es) = all_indices es
  indices (Ast.labeled_expr p l e) = indices e
  indices (Ast.and_expr p e) = indices e
  indices (Ast.not_expr p e) = indices e
  indices (Ast.zero_or_one_expr p e) = indices e
  indices (Ast.zero_or_more_expr p e) = indices e
  indices (Ast.one_or_more_expr p e) = indices e
  indices (Ast.rule_ref_expr p n) = []
  indices (Ast.and_code_expr p c ix) = ix ∷ []
  indices (Ast.not_code_expr p c ix) = ix ∷ []
  indices (Ast.lit_matcher l) = []
  indices (Ast.char_class_matcher c) = []
  indices (Ast.any_matcher a) = []

  pub all_indices : Expressions → List ℕ
  all_indices Ast.no_more = []
  all_indices (Ast.more e es) = indices e ++ all_indices es

-- Each number is above the one before it and `lo`, and none is above `hi`.
abbrev pub Increasing : ℕ → List ℕ → ℕ → Type 0
Increasing lo [] hi = lo ≤ hi
Increasing lo (x ∷ xs) hi = (lo < x) × Increasing x xs hi

Increasing-append :
    (lo mid hi : ℕ) (xs ys : List ℕ)
    → Increasing lo xs mid
    → Increasing mid ys hi
    → Increasing lo (xs ++ ys) hi
Increasing-append lo mid hi [] [] a b = omega arith
Increasing-append lo mid hi [] (y ∷ ys) a (b, bs) = (omega arith, bs)
Increasing-append lo mid hi (x ∷ xs) ys (a, as_) b = (a, Increasing-append x mid hi xs ys as_ b)

-- The numbers may begin lower.
Increasing-lower :
    (lo lo' hi : ℕ) (xs : List ℕ) → lo' ≤ lo → Increasing lo xs hi → Increasing lo' xs hi
Increasing-lower lo lo' hi [] h a = omega arith
Increasing-lower lo lo' hi (x ∷ xs) h (a, as_) = (omega arith, as_)

one-Increasing : (k : ℕ) → Increasing k (suc k ∷ []) (k + 1)
one-Increasing k = (omega arith, omega arith)

none-Increasing : (k : ℕ) → Increasing k [] (k + 1)
none-Increasing k = omega arith

-- One node, and the nodes in it.
under-Increasing :
    (k n : ℕ) (xs : List ℕ) → Increasing (suc k) xs (suc k + n) → Increasing k xs (k + suc n)
under-Increasing k n xs a =
    let i : k + suc n ≡ suc k + n = omega arith in
    rw i (Increasing-lower (suc k) k (suc k + n) xs (omega arith) a)

mutual
  pub number-Increasing :
      (k : ℕ) (e : Expression) → Increasing k (indices (number k e)) (k + size e)
  number-Increasing k (Ast.choice_expr p es) =
      under-Increasing k (sizes es) (all_indices (numbers (suc k) es))
        (numbers-Increasing (suc k) es)
  number-Increasing k (Ast.action_expr p e c ix) =
      let i : k + suc (size e) ≡ suc k + size e = omega arith in
      (omega arith, rw i (number-Increasing (suc k) e))
  number-Increasing k (Ast.seq_expr p es) =
      under-Increasing k (sizes es) (all_indices (numbers (suc k) es))
        (numbers-Increasing (suc k) es)
  number-Increasing k (Ast.labeled_expr p l e) =
      under-Increasing k (size e) (indices (number (suc k) e)) (number-Increasing (suc k) e)
  number-Increasing k (Ast.and_expr p e) =
      under-Increasing k (size e) (indices (number (suc k) e)) (number-Increasing (suc k) e)
  number-Increasing k (Ast.not_expr p e) =
      under-Increasing k (size e) (indices (number (suc k) e)) (number-Increasing (suc k) e)
  number-Increasing k (Ast.zero_or_one_expr p e) =
      under-Increasing k (size e) (indices (number (suc k) e)) (number-Increasing (suc k) e)
  number-Increasing k (Ast.zero_or_more_expr p e) =
      under-Increasing k (size e) (indices (number (suc k) e)) (number-Increasing (suc k) e)
  number-Increasing k (Ast.one_or_more_expr p e) =
      under-Increasing k (size e) (indices (number (suc k) e)) (number-Increasing (suc k) e)
  number-Increasing k (Ast.rule_ref_expr p n) = none-Increasing k
  number-Increasing k (Ast.and_code_expr p c ix) = one-Increasing k
  number-Increasing k (Ast.not_code_expr p c ix) = one-Increasing k
  number-Increasing k (Ast.lit_matcher l) = none-Increasing k
  number-Increasing k (Ast.char_class_matcher c) = none-Increasing k
  number-Increasing k (Ast.any_matcher a) = none-Increasing k

  numbers-Increasing :
      (k : ℕ) (es : Expressions) → Increasing k (all_indices (numbers k es)) (k + sizes es)
  numbers-Increasing k Ast.no_more = omega arith
  numbers-Increasing k (Ast.more e es) =
      let i : k + (size e + sizes es) ≡ k + size e + sizes es = omega arith in
      rw i (
        Increasing-append k (k + size e) (k + size e + sizes es) (indices (number k e))
          (all_indices (numbers (k + size e) es)) (number-Increasing k e)
          (numbers-Increasing (k + size e) es))

-- The code blocks of an expression get different numbers: from the left, each has a larger one than
-- the one before it, all are above the index before the expression was written, and none is
-- above the index behind it.
pub write_expr-Increasing :
    (h : Host) (e : Expression) (b : Builder)
    → Increasing b.expr_index (indices (write_expr h e b).0) (write_expr h e b).1.expr_index
write_expr-Increasing h e b =
    rw (expr-Emits h e b b.expr_index (b.out, b.err)) (number-Increasing b.expr_index e)
