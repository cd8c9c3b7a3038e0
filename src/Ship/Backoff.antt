-- ===== src/Ship/Backoff.antt =====
-- How long `Run` of internal/ship/ship.go waits.
use buckle.Base.{false, ◌∙◌, ℕ, zero, suc, ◌*◌, min, true, Option, none, some, ◌≡◌, refl, ap, arith}
use buckle.Ship.{broken, Waiting, after_attempt, max_backoff}

abbrev pub doubled : ℕ → ℕ → ℕ
doubled zero n = n
doubled (suc k) n = doubled k n * 2

-- The state behind further failed attempts in a row.
abbrev pub fail_again : ℕ → ℕ → Waiting → Option Waiting
fail_again interval zero w = some w
fail_again interval (suc k) w = elim (fail_again interval k w) [
  | none ↦ none
  | some v ↦ after_attempt interval (broken 0) v
]

again_and_again :
    (interval k : ℕ)
    → fail_again interval (suc k) (record { wait = interval; failing = true })
      ≡ some (record { wait = min (doubled (suc k) interval) max_backoff; failing = true })
unfolding after_attempt
again_and_again interval zero = refl
again_and_again interval (suc k) =
    rw (again_and_again interval k)
      (ap (λ n. some (record { wait = n; failing = true })) (capped (doubled k interval * 2)))
  where
    capped : (n : ℕ) → min (min n max_backoff * 2) max_backoff ≡ min (n * 2) max_backoff
    capped n = omega arith

-- The first failure of a row waits the interval.
fail_again_first :
    (interval wait k : ℕ)
    → fail_again interval (suc k) (record { wait = wait; failing = false })
      ≡ fail_again interval k (record { wait = interval; failing = true })
unfolding after_attempt
fail_again_first interval wait zero = refl
fail_again_first interval wait (suc k) = rw (fail_again_first interval wait k) refl

-- After two or more failures in a row, `Run` has not returned, and its wait is the interval, doubled
-- once for each failure behind the first, up to the limit.
pub fail_again-doubled :
    (interval wait k : ℕ)
    → fail_again interval (suc (suc k)) (record { wait = wait; failing = false })
      ≡ some (record { wait = min (doubled (suc k) interval) max_backoff; failing = true })
fail_again-doubled interval wait k =
    fail_again_first interval wait (suc k) ∙ again_and_again interval k
