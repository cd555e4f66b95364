-- ===== src/Connector/Breaker/Reach.antt =====
-- The breaker under any interleaving of calls.
use stelfin.Prelude.{ℕ, suc, ◌<◌, true, false, ◌≡◌, ◌⊎◌, inl, inr, refl, arith, none, some}
use stelfin.Connector.Breaker.{
  Outcome, succeeded, failed, inconclusive, Breaker, ordinary, probe, enter, leave,
}

-- The breaker with the calls that have entered it and not left: probes, and ordinary ones.
pub record System : Type 0 where
  pub breaker : Breaker
  pub probes : ℕ
  pub calls : ℕ

-- Callers enter and leave in any order, at any times and with any outcomes. Each ticket is handed
-- back once.
pub data Step : System → System → Type 0 where
  refused : (s : System) (now : ℕ) → (enter s.breaker now).1 ≡ none → Step s s
  entered :
      (s : System) (now : ℕ)
      → (enter s.breaker now).1 ≡ some ordinary
      → Step s (record s { breaker = (enter s.breaker now).0; calls = suc s.calls })
  probed :
      (s : System) (now : ℕ)
      → (enter s.breaker now).1 ≡ some probe
      → Step s (record s { breaker = (enter s.breaker now).0; probes = suc s.probes })
  left :
      (s : System) (calls : ℕ) (result : Outcome) (at : ℕ)
      → s.calls ≡ suc calls
      → Step s (record s { breaker = leave ordinary s.breaker result at; calls = calls })
  probe_left :
      (s : System) (probes : ℕ) (result : Outcome) (at : ℕ)
      → s.probes ≡ suc probes
      → Step s (record s { breaker = leave probe s.breaker result at; probes = probes })

pub data Reach (s : System) : System → Type 0 where
  here : Reach s s
  next : {t u : System} → Reach s t → Step t u → Reach s u

-- A new breaker, with nobody inside.
abbrev pub initial : ℕ → ℕ → System
initial threshold cool_down = record {
  breaker = record {
    threshold = threshold;
    cool_down = cool_down;
    failures = 0;
    is_open = false;
    opened_at = 0;
    probing = false;
  };
  probes = 0;
  calls = 0;
}

-- One probe is in flight if `probing` is set and none otherwise; a breaker being probed is open; a
-- closed one has counted fewer failures than the threshold, or none.
pub record Inv (s : System) : Type 0 where
  pub flag :
      ((s.breaker.probing ≡ true) × (s.probes ≡ 1)) ⊎ ((s.breaker.probing ≡ false) × (s.probes ≡ 0))
  pub probing_open : (s.breaker.probing ≡ false) ⊎ (s.breaker.is_open ≡ true)
  pub below :
      (s.breaker.is_open ≡ true)
      ⊎ ((s.breaker.failures < s.breaker.threshold) ⊎ (s.breaker.failures ≡ 0))

Step-Inv : {s t : System} → Step s t → Inv s → Inv t
unfolding enter leave
Step-Inv (refused s now e) v = v
Step-Inv (entered s now e) v = ground arith
Step-Inv (probed s now e) v = ground arith
Step-Inv (left s calls succeeded at e) v = ground arith
Step-Inv (left s calls failed at e) v = ground arith
Step-Inv (left s calls inconclusive at e) v = ground arith
Step-Inv (probe_left s probes succeeded at e) v = ground arith
Step-Inv (probe_left s probes failed at e) v = ground arith
Step-Inv (probe_left s probes inconclusive at e) v = ground arith

-- In every reachable state at most one probe is in flight, a breaker is probed only while it is
-- open, and a closed one has counted fewer failures than the threshold or none.
pub Reach-Inv :
    {threshold cool_down : ℕ} {s : System} → Reach (initial threshold cool_down) s → Inv s
Reach-Inv here = record { flag = inr (refl, refl); probing_open = inl refl; below = inr (inr refl) }
Reach-Inv (next r st) = Step-Inv st (Reach-Inv r)
