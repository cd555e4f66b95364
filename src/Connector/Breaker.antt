-- ===== src/Connector/Breaker.antt =====
-- connector/mcpclient/breaker.go. A time is a number of nanoseconds; `now.Sub(t) < d` is `now < t + d`.
-- What `enter` returns is a ticket that says whether the call is the probe; the function that the
-- source returns is `leave` of that ticket. The mutex makes `enter` and `leave` atomic steps.
pub mod Opens
pub mod Reach
use stelfin.Prelude.{
  ℕ, suc, ◌+◌, Bool, true, false, ◌||◌, ltb, leb, if◌then◌else◌, Option, none, some,
}

pub data Outcome : Type 0 where
  succeeded failed inconclusive : Outcome

pub record Breaker : Type 0 where
  pub threshold : ℕ
  pub cool_down : ℕ
  pub failures : ℕ
  pub is_open : Bool
  pub opened_at : ℕ
  pub probing : Bool

-- What the caller that may proceed holds: `probe` of the closure.
pub data Ticket : Type 0 where
  ordinary probe : Ticket

abbrev pub refuses : Breaker → ℕ → Bool
refuses b now = b.probing || ltb now (b.opened_at + b.cool_down)

unfoldable pub enter : Breaker → ℕ → Breaker × Option Ticket
enter b now =
    if b.is_open
    then (if refuses b now then (b, none) else (record b { probing = true }, some probe))
    else (b, some ordinary)

unfoldable pub leave_probe : Breaker → Outcome → ℕ → Breaker
leave_probe b succeeded at = record b { probing = false; is_open = false; failures = 0 }
leave_probe b failed at = record b { probing = false; opened_at = at }
leave_probe b inconclusive at = record b { probing = false }

abbrev count_failure : Breaker → ℕ → Breaker
count_failure b at =
    if leb b.threshold (suc b.failures)
    then record b { failures = suc b.failures; is_open = true; opened_at = at }
    else record b { failures = suc b.failures }

unfoldable pub leave_ordinary : Breaker → Outcome → ℕ → Breaker
leave_ordinary b succeeded at = if b.is_open then b else record b { failures = 0 }
leave_ordinary b failed at = if b.is_open then b else count_failure b at
leave_ordinary b inconclusive at = b

-- The function returned by `enter`.
unfoldable pub leave : Ticket → Breaker → Outcome → ℕ → Breaker
unfolding leave_probe leave_ordinary
leave probe = leave_probe
leave ordinary = leave_ordinary
