-- ===== src/Tests/Contexts.antt =====
-- Contexts at work.
use tinypipe.Prelude.{ℕ, ◌≡◌, refl, some, arith}
use tinypipe.Api.Int.{pos}
use tinypipe.Api.Value.{int, string}
use tinypipe.Api.Context.{Context, get, set, set_branch, enter_parallel, scope_get}
use tinypipe.Api.Context.Laws.{get-set_in_branch, get-set_global, branch_isolation}
use tinypipe.Tests.{inputs}

-- inside a PARALLEL
abbrev forked : Context ℕ
unfolding enter_parallel
forked = enter_parallel inputs

abbrev in_one : Context ℕ
unfolding set_branch
in_one = set_branch forked 1

get-set_in_branch_example : get (set in_one "x" (int (pos 8))) "x" ≡ some (int (pos 8))
unfolding in_one
get-set_in_branch_example = get-set_in_branch in_one 1 "x" "x" (int (pos 8)) refl

-- the value of the snapshot, not the one written
get-set_global_example : get (set forked "x" (int (pos 8))) "x" ≡ some (int (pos 7))
unfolding forked scope_get inputs
get-set_global_example = get-set_global forked "x" "x" (int (pos 8)) refl

branch_isolation_example :
    get (set_branch (set (set_branch forked 1) "x" (string "new")) 2) "x"
    ≡ get (set_branch forked 2) "x"
branch_isolation_example = branch_isolation forked 1 2 "x" "x" (string "new") (omega arith)
