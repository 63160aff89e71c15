-- ===== src/Peg/Ast/Samples.antt =====
-- peg/ast/ast.go: the theorem on ranges at a class.
use exp.Base.{codes, ◌≡◌}
use exp.Peg.Ast.CharClass.{extracted}
use exp.Peg.Ast.CharClass.Ranges.{extracted-items}

-- The class [a-c-x0-9-].
extracted-items_example :
    ((extracted (codes "a-c-x0-9-")).chars ≡ codes "-x-")
    × ((extracted (codes "a-c-x0-9-")).ranges ≡ codes "ac09")
extracted-items_example = extracted-items (codes "a-c-x0-9-")
