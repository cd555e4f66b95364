-- ===== src/Connector/Breaker/Opens.antt =====
-- When the breaker opens, and what an open one answers.
use stelfin.Prelude.{
  ℕ, suc, ◌+◌, ◌≤◌, ◌<◌, List, [], ◌∷◌, ◌++◌, true, false, ◌≡◌, arith, some, none, length,
}
use stelfin.Connector.Breaker.{Breaker, failed, ordinary, probe, enter, leave}

-- Ordinary calls that fail at the given times, one after the other.
pub fail_all : Breaker → List ℕ → Breaker
fail_all b [] = b
fail_all b (at ∷ times) = fail_all (leave ordinary b failed at) times

counted :
    (b : Breaker) (times : List ℕ) (at : ℕ)
    → b.is_open ≡ false
    → b.failures + suc (length times) ≡ b.threshold
    → let b' = fail_all b (times ++ at ∷ []) in
      (b'.is_open ≡ true)
      × (b'.opened_at ≡ at)
      × (b'.probing ≡ b.probing)
      × (b'.cool_down ≡ b.cool_down)
unfolding fail_all leave
counted b [] at closed e = ground arith
counted b (t ∷ times) at closed e =
    ground (arith, counted (record b { failures = suc b.failures }) times at)

-- A closed breaker with no failures counted opens with the failure that reaches the threshold. It
-- then refuses every call until the cool-down has passed, and lets the first one after it through as
-- the probe.
pub fail_all_lem :
    (b : Breaker) (times : List ℕ) (at now : ℕ)
    → b.is_open ≡ false
    → b.probing ≡ false
    → b.failures ≡ 0
    → suc (length times) ≡ b.threshold
    → let b' = fail_all b (times ++ at ∷ []) in
      ((now < at + b.cool_down) → enter b' now ≡ (b', none))
      × ((at + b.cool_down ≤ now) → (enter b' now).1 ≡ some probe)
unfolding enter
fail_all_lem b times at now closed idle zero e =
    let facts = counted b times at closed (omega arith) in
    (
      λ early. ground (arith, facts.0, facts.1, facts.3),
      λ late. ground (arith, facts.0, facts.1, facts.2, facts.3),
    )
