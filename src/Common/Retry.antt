-- ===== src/Common/Retry.antt =====
-- common/utils/retry.h and common/types/result.h: `retry_on_fail`. The action, with the conversion
-- of its value to a result, is a function on a state; the log is left out.
use marketblocks.Prelude.{ℕ, zero, suc, ◌+◌, ◌≤◌, ◌<◌, Bytes, ◌≡◌, sym, ap, arith}
use mathlib.Core.Path.{subst}
use marketblocks.Common.Run.{Run, returns, throws, retries_exceeded}

pub data Result (V : Type 0) : Type 0 where
  success : V → Result V
  failure : Bytes → Result V

module _ {S V : Type 0} (action : S → Result V × S) where
  -- The loop, with the number of attempts that are left.
  unfoldable pub attempts : ℕ → S → Run S V
  attempts zero s = throws retries_exceeded s
  attempts (suc n) s =
      let rest = attempts n (action s).1 in
      elim (action s).0 [ success v ↦ returns v (action s).1 | failure e ↦ rest ]

  unfoldable pub retry_on_fail : ℕ → S → Run S V
  unfolding attempts
  retry_on_fail max_retries s = attempts (max_retries + 1) s

  -- A number of attempts that fail lead from one state to another.
  abbrev pub Fails : ℕ → S → S → Type 0
  Fails zero s t = s ≡ t
  Fails (suc n) s t = (e : Bytes) × ((action s).0 ≡ failure e) × Fails n (action s).1 t

  attempts-success :
      (k n : ℕ) (s t : S) (v : V)
      → k < n
      → Fails k s t
      → (action t).0 ≡ success v
      → attempts n s ≡ returns v (action t).1
  unfolding attempts
  attempts-success k zero s t v room fails e = absurd (omega arith)
  attempts-success zero (suc n) s t v room same e =
      subst (λ u. attempts (suc n) u ≡ returns v (action t).1) (sym same) (ground arith)
  attempts-success (suc k) (suc n) s t v room (message, failed, fails) e =
      ground (arith, attempts-success k n (action s).1 t v (omega arith) fails e)

  attempts-failure : (n : ℕ) (s t : S) → Fails n s t → attempts n s ≡ throws retries_exceeded t
  unfolding attempts
  attempts-failure zero s t same = ap (throws retries_exceeded) same
  attempts-failure (suc n) s t (message, failed, fails) =
      ground (arith, attempts-failure n (action s).1 t fails)

  -- `retry_on_fail` returns the value of the first attempt that succeeds, where no more attempts than
  -- there are retries have failed before it, and makes no further attempt.
  pub retry_on_fail-success :
      (max_retries k : ℕ) (s t : S) (v : V)
      → k ≤ max_retries
      → Fails k s t
      → (action t).0 ≡ success v
      → retry_on_fail max_retries s ≡ returns v (action t).1
  unfolding retry_on_fail
  retry_on_fail-success max_retries k s t v room fails e =
      attempts-success k (max_retries + 1) s t v (omega arith) fails e

  -- `retry_on_fail` throws once the first attempt and all retries have failed, and makes no further
  -- attempt.
  pub retry_on_fail-failure :
      (max_retries : ℕ) (s t : S)
      → Fails (max_retries + 1) s t
      → retry_on_fail max_retries s ≡ throws retries_exceeded t
  unfolding retry_on_fail
  retry_on_fail-failure max_retries s t fails = attempts-failure (max_retries + 1) s t fails
