-- ===== src/Settlement/Retry/Tests.antt =====
-- A read of which the first attempt fails.
use stelfin.Prelude.{ℕ, zero, suc, true, false, if◌then◌else◌, Result, ok, err}
use stelfin.Settlement.Retry.{Network, round_trip}
use stelfin.Settlement.Retry.Attempts.{Sent, round_trip-Sent}

abbrev answers : ℕ → Result ℕ ℕ
answers zero = err 7
answers (suc k) = ok k

abbrev flaky : Network ℕ ℕ
flaky = record {
  answer = answers;
  ended = λ k. false;
  is_canceled = λ e. false;
  pause_fails = λ k d. false;
}

round_trip-Sent_example :
    Sent flaky (round_trip flaky true).0 (round_trip flaky true).1 (if true then 3 else 1)
round_trip-Sent_example = round_trip-Sent flaky true
