-- ===== src/Tests/Accounts.antt =====
-- The accounts after the sample history, and after the document has been deleted.
use rosemary_virsree.Prelude.{[], ◌∷◌, ◌++◌}
use rosemary_virsree.Store.Steps.{Op, run, empty}
use rosemary_virsree.Store.Accounts.{Consistent}
use rosemary_virsree.Store.Steps.Accounts.{run-Consistent, empty-Consistent}
use rosemary_virsree.Tests.Sample.{setup, first}

run-Consistent_example : Consistent (run (setup ++ (9, Op.delete first) ∷ []) empty)
run-Consistent_example = run-Consistent (setup ++ (9, Op.delete first) ∷ []) empty empty-Consistent
