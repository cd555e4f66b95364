-- ===== src/Connector/Rate.antt =====
-- connector/rate.go: a fixed window for each org and connector. A time is a number of nanoseconds.
-- Go's map is an association list; the mutex makes `allow` one step.
pub mod Bound
use stelfin.Prelude.{
  ℕ, suc, ◌+◌, ◌*◌, List, [], ◌∷◌, Bool, true, false, ◌&&◌, not, leb, ◌==◌, if◌then◌else◌, Option,
  none, some,
}
use stelfin.Prelude.Int.{ℤ, pos, leb_ℤ}
use stelfin.Text.{Bytes, bytes_eq}

-- time.Hour
abbrev pub rate_window : ℕ
rate_window = 3600 * 1_000_000_000

pub record RateKey : Type 0 where
  pub org : ℕ
  pub connector : Bytes

pub record Window : Type 0 where
  pub start : ℕ
  pub count : ℕ

abbrev pub RateLimiter : Type 0
RateLimiter = List (RateKey × Window)

unfoldable pub key_eq : RateKey → RateKey → Bool
key_eq a b = a.org == b.org && bytes_eq a.connector b.connector

unfoldable pub find : RateKey → RateLimiter → Option Window
find k [] = none
find k ((j, w) ∷ rest) = let later = find k rest in if key_eq j k then some w else later

unfoldable pub set : RateKey → Window → RateLimiter → RateLimiter
set k v [] = (k, v) ∷ []
set k v ((j, w) ∷ rest) =
    let later = set k v rest in if key_eq j k then (j, v) ∷ rest else (j, w) ∷ later

abbrev pub expired : Window → ℕ → Bool
expired w now = leb (w.start + rate_window) now

-- Deletes every window that has expired.
unfoldable pub sweep : ℕ → RateLimiter → RateLimiter
sweep now [] = []
sweep now ((j, w) ∷ rest) =
    let later = sweep now rest in if expired w now then later else (j, w) ∷ later

abbrev pub fresh_window : ℕ → Window
fresh_window now = record { start = now; count = 1 }

unfoldable pub allow : RateLimiter → RateKey → ℤ → ℕ → RateLimiter × Bool
allow r key per_hour now = if leb_ℤ per_hour (pos 0) then (r, false) else elim (find key r) [
  | none ↦ (sweep now (set key (fresh_window now) r), true)
  | some w ↦
      if expired w now
      then (sweep now (set key (fresh_window now) r), true)
      else if leb_ℤ per_hour (pos w.count)
      then (r, false)
      else (set key (record w { count = suc w.count }) r, true)
]
