-- ===== src/Settlement/Retry/Attempts.antt =====
-- How often a request is sent, and which answer is returned.
use stelfin.Prelude.{
  ℕ, zero, suc, ◌+◌, ◌*◌, ◌≤◌, ◌<◌, Bool, true, false, ◌||◌, if◌then◌else◌, ◌≡◌, ◌⊎◌, inl, inr,
  refl, sym, ◌∙◌, ap, arith, Result, err, Result-cases, Bool-cases,
}
use stelfin.Settlement.Retry.{Network, attempts, round_trip, read_retries, read_backoff}

module _ {E R : Type 0} (n : Network E R) where
  -- The request was sent `sent` times, no attempt before the last was answered, and the last one's
  -- result is what is returned.
  pub record Sent (result : Result E R) (sent : ℕ) (at_most : ℕ) : Type 0 where
    pub last : ℕ
    pub counted : sent ≡ suc last
    pub bounded : sent ≤ at_most
    pub returned : result ≡ n.answer last
    pub unanswered : (k : ℕ) → k < last → (e : E) × (n.answer k ≡ err e)

  extend :
      (before : ℕ)
      → ((k : ℕ) → k < before → (e : E) × (n.answer k ≡ err e))
      → (e : E) → n.answer before ≡ err e
      → (k : ℕ) → k < suc before
      → (e : E) × (n.answer k ≡ err e)
  extend before all e q k h = elim (split k before h) [
    | inl l ↦ all k l
    | inr same ↦ (e, ap n.answer same ∙ q)
  ]
    where
      split : (k before : ℕ) → k < suc before → (k < before) ⊎ (k ≡ before)
      split k before h = ground arith

  attempts-Sent :
      (left attempt backoff : ℕ)
      → ((k : ℕ) → k < attempt → (e : E) × (n.answer k ≡ err e))
      → Sent
          (attempts n left attempt backoff).0
          (attempts n left attempt backoff).1
          (suc (left + attempt))
  unfolding attempts
  attempts-Sent zero attempt backoff before = record {
    last = attempt;
    counted = refl;
    bounded = omega arith;
    returned = refl;
    unanswered = before;
  }
  attempts-Sent (suc left) attempt backoff before = elim (Result-cases (n.answer attempt)) [
    | inl (r, q) ↦
        rw (q, attempts)
          (record {
            last = attempt;
            counted = refl;
            bounded = omega arith;
            returned = sym q;
            unanswered = before;
          })
    | inr (e, q) ↦
        elim (Bool-cases (n.ended attempt || n.is_canceled e || n.pause_fails attempt backoff)) [
          | inl stop ↦
              rw (q, stop, attempts)
                (record {
                  last = attempt;
                  counted = refl;
                  bounded = omega arith;
                  returned = sym q;
                  unanswered = before;
                })
          | inr go ↦
              let rest =
                attempts-Sent left (suc attempt) (backoff * 2) (extend attempt before e q) in
              rw (q, go, attempts)
                (record {
                  last = rest.last;
                  counted = rest.counted;
                  bounded = omega (arith, rest.bounded);
                  returned = rest.returned;
                  unanswered = rest.unanswered;
                })
        ]
  ]

  -- A request that is not a read is sent exactly once, and a read at most three times: it is repeated
  -- only while no answer came, and what is returned is the last attempt's result.
  pub round_trip-Sent :
      (is_get : Bool)
      → Sent (round_trip n is_get).0 (round_trip n is_get).1 (if is_get then 3 else 1)
  unfolding round_trip
  round_trip-Sent true = attempts-Sent read_retries 0 read_backoff (λ k h. absurd (omega arith))
  round_trip-Sent false = record {
    last = 0;
    counted = refl;
    bounded = omega arith;
    returned = refl;
    unanswered = λ k h. absurd (omega arith);
  }
