-- ===== src/Core/Transaction/Tests.antt =====
-- The theorem on the lifecycle at a concrete input.
use postproject.Base.{◌≡◌, [], ◌∷◌, ok, err}
use postproject.Core.Transaction.{
  with_id, close, close_all, commit, rollback, committed, ensure_open, closed_error, close-once,
}

close-once_example :
    ((close commit (with_id 3)).0 ≡ ok tt)
    × (close_all (commit ∷ rollback ∷ []) (with_id 3) ≡ record { id = 3; state = committed })
    × (close commit (close_all (commit ∷ rollback ∷ []) (with_id 3))
        ≡ (err closed_error, close_all (commit ∷ rollback ∷ []) (with_id 3)))
    × (ensure_open (close_all (commit ∷ rollback ∷ []) (with_id 3)) ≡ err closed_error)
close-once_example = close-once 3 commit commit (rollback ∷ [])
