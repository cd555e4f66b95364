-- ===== src/Settlement/Retry.antt =====
-- settlement/retry.go: reads that are repeated when no answer came. What the network answers to an
-- attempt, whether the caller has given up behind it and whether a pause was cut short are arguments;
-- a time is in nanoseconds. The loop ends at the last retry, so it recurs on the retries that are left.
pub mod Attempts
mod Tests
use stelfin.Prelude.{
  ℕ, zero, suc, ◌+◌, ◌*◌, Bool, true, false, ◌||◌, if◌then◌else◌, Result, ok, err,
}

abbrev pub read_retries : ℕ
read_retries = 2

-- 400 * time.Millisecond
abbrev pub read_backoff : ℕ
read_backoff = 400 * 1_000_000

-- What lies outside: the answer to each attempt, whether the request's context has ended behind it,
-- which errors are the context's own, and whether the pause behind it failed.
pub record Network (E R : Type 0) : Type 0 where
  pub answer : ℕ → Result E R
  pub ended : ℕ → Bool
  pub is_canceled : E → Bool
  pub pause_fails : ℕ → ℕ → Bool

module _ {E R : Type 0} (n : Network E R) where
  -- The attempts from one on; the result, and how many attempts were made in all.
  unfoldable pub attempts : ℕ → ℕ → ℕ → Result E R × ℕ
  attempts zero attempt backoff = (n.answer attempt, suc attempt)
  attempts (suc left) attempt backoff =
      let later = attempts left (suc attempt) (backoff * 2) in
      elim (n.answer attempt) [
        | ok r ↦ (ok r, suc attempt)
        | err e ↦
            if n.ended attempt || n.is_canceled e || n.pause_fails attempt backoff
            then (err e, suc attempt)
            else later
      ]

  -- RoundTrip
  unfoldable pub round_trip : Bool → Result E R × ℕ
  round_trip is_get = if is_get then attempts read_retries 0 read_backoff else (n.answer 0, 1)
