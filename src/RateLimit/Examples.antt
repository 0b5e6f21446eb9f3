-- ===== src/RateLimit/Examples.antt =====
-- The theorems on backend/src/security/rate-limit.service.ts at a key with no row.
use oyna.Base.{ℕ, ◌+◌, ◌≡◌, refl, true, none, some, [], ◌∷◌, length, min, arith}
use oyna.RateLimit.{Rows, fifteen_min, assert_not_locked, record_failure}
use oyna.RateLimit.Laws.{failures, record_failure_locks, let_through, hit_window_limit}

abbrev no_rows : Rows
no_rows key = none

record_failure_locks_example :
    let before = failures 1 (10 ∷ 20 ∷ 30 ∷ 40 ∷ []) no_rows in
    let (locked, after) = record_failure 1 50 before in
    (assert_not_locked 1 50 before ≡ none)
    × (locked ≡ true)
    × (assert_not_locked 1 50 after ≡ some 900)
    × (assert_not_locked 1 (50 + fifteen_min) after ≡ none)
record_failure_locks_example = record_failure_locks 1 10 50 (20 ∷ 30 ∷ 40 ∷ []) no_rows refl refl

hit_window_limit_example :
    let_through 1 2 60000 (10 ∷ 20 ∷ 30 ∷ []) no_rows ≡ min 2 (length {A = ℕ} (10 ∷ 20 ∷ 30 ∷ []))
hit_window_limit_example =
    hit_window_limit 1 2 60000 10 (20 ∷ 30 ∷ []) no_rows refl (omega arith) (omega arith)
      (omega arith, (omega arith, tt))
