-- ===== src/Common/Tests.antt =====
-- A queue of numbers, and an action that succeeds at its third attempt.
use marketblocks.Prelude.{arith, ℕ, ◌+◌, [], ◌∷◌, ◌≡◌, refl, nat_equality, ltb, if◌then◌else◌}
use marketblocks.Common.Run.{returns, throws, retries_exceeded}
use marketblocks.Common.Retry.{
  Result, success, failure, retry_on_fail, retry_on_fail-success, retry_on_fail-failure,
}
use marketblocks.Common.SetQueue.{new_set_queue, pushes, pops, calls, IsMatched, calls-IsMatched}

calls-IsMatched_example :
    IsMatched {T = ℕ} (calls (pushes 3 ∷ pushes 5 ∷ pushes 3 ∷ pops ∷ []) new_set_queue)
calls-IsMatched_example = calls-IsMatched (pushes 3 ∷ pushes 5 ∷ pushes 3 ∷ pops ∷ [])

abbrev third : ℕ → Result ℕ × ℕ
third n = (if ltb n 2 then failure [] else success n, n + 1)

retry_on_fail-success_example : retry_on_fail third 2 0 ≡ returns 2 3
retry_on_fail-success_example =
    retry_on_fail-success third 2 2 0 2 2 (omega arith) ([], refl, ([], refl, refl)) refl

retry_on_fail-failure_example : retry_on_fail third 1 0 ≡ throws retries_exceeded 2
retry_on_fail-failure_example = retry_on_fail-failure third 1 0 2 ([], refl, ([], refl, refl))
