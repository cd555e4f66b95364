-- ===== src/Connector/Rate/Bound.antt =====
-- How many calls one window lets through.
use stelfin.Prelude.{
  ℕ, suc, ◌+◌, ◌≤◌, ◌<◌, List, [], ◌∷◌, true, false, ◌&&◌, if◌then◌else◌, ◌≡◌, ◌⊎◌, inl, inr, refl,
  ap, arith, none, some, All, Bool-cases, Option-cases,
}
use stelfin.Prelude.Int.{ℤ, pos, leb_ℤ, pos_part}
use stelfin.Text.Equality.{bytes_eq_refl, bytes_eq_sound}
use stelfin.Connector.Rate.{
  rate_window, RateKey, Window, RateLimiter, key_eq, find, set, expired, sweep, fresh_window, allow,
}

key_eq_sound : (a b : RateKey) → key_eq a b ≡ true → a ≡ b
unfolding key_eq
key_eq_sound a b h = ground (arith, bytes_eq_sound a.connector b.connector)

key_eq_refl : (a : RateKey) → key_eq a a ≡ true
unfolding key_eq
key_eq_refl a = ground (arith, bytes_eq_refl a.connector)

find-set :
    (j k : RateKey) (v : Window) (r : RateLimiter)
    → find k (set j v r) ≡ (if key_eq j k then some v else find k r)
unfolding find set
find-set j k v [] = refl
find-set j k v ((i, w) ∷ r) =
    ground
      (arith, find-set j k v r, key_eq_sound i j, key_eq_sound j k, key_eq_sound i k, key_eq_refl k)

-- A live window outlasts a sweep; what a sweep leaves was there.
find-sweep :
    (k : RateKey) (now : ℕ) (r : RateLimiter) (w : Window)
    → find k r ≡ some w
    → expired w now ≡ false
    → find k (sweep now r) ≡ some w
unfolding find sweep
find-sweep k now [] w h e = h
find-sweep k now ((j, x) ∷ r) w h e = ground (arith, find-sweep k now r w)

-- A call by some connector of some org.
pub record Call : Type 0 where
  pub key : RateKey
  pub per_hour : ℤ
  pub now : ℕ

-- The calls that are let through for `k`.
pub granted : RateKey → RateLimiter → List Call → ℕ
granted k r [] = 0
granted k r (c ∷ calls) =
    let rest = granted k (allow r c.key c.per_hour c.now).0 calls in
    if key_eq c.key k && (allow r c.key c.per_hour c.now).1 then suc rest else rest

-- Calls before `end`, those of `k` under one allowance.
abbrev pub Within : RateKey → ℤ → ℕ → Call → Type 0
Within k per_hour end c = (c.now < end) × ((key_eq c.key k ≡ true) → c.per_hour ≡ per_hour)

allow-other :
    (k : RateKey) (r : RateLimiter) (w : Window) (c : Call)
    → find k r ≡ some w
    → expired w c.now ≡ false
    → key_eq c.key k ≡ false
    → find k (allow r c.key c.per_hour c.now).0 ≡ some w
unfolding allow
allow-other k r w c h live other = elim (Option-cases (find c.key r)) [
  | inl e ↦ ground (
    arith,
    find-set c.key k (fresh_window c.now) r,
    find-sweep k c.now (set c.key (fresh_window c.now) r) w,
  )
  | inr (x, e) ↦ ground (
    arith,
    find-set c.key k (fresh_window c.now) r,
    find-sweep k c.now (set c.key (fresh_window c.now) r) w,
    find-set c.key k (record x { count = suc x.count }) r,
  )
]

allow-own :
    (k : RateKey) (r : RateLimiter) (w : Window) (per_hour : ℤ) (now : ℕ)
    → find k r ≡ some w
    → expired w now ≡ false
    → ((allow r k per_hour now ≡ (r, false)) × (pos_part per_hour ≤ w.count))
      ⊎ ((allow r k per_hour now ≡ (set k (record w { count = suc w.count }) r, true))
          × (suc w.count ≤ pos_part per_hour))
unfolding allow
allow-own k r w per_hour now h live = ground arith

-- What one call of `k` adds, from what the calls after it add.
own_le :
    (k : RateKey) (r : RateLimiter) (w : Window) (per_hour : ℤ) (now : ℕ) (calls : List Call)
    → find k r ≡ some w
    → expired w now ≡ false
    → w.count + granted k r calls ≤ pos_part per_hour
    → ((suc w.count ≤ pos_part per_hour)
        → suc w.count + granted k (set k (record w { count = suc w.count }) r) calls
          ≤ pos_part per_hour)
    → w.count
        + (if (allow r k per_hour now).1
            then suc (granted k (allow r k per_hour now).0 calls)
            else granted k (allow r k per_hour now).0 calls)
      ≤ pos_part per_hour
own_le k r w per_hour now calls h live stay more = elim (allow-own k r w per_hour now h live) [
  | inl (e, _) ↦ rw e stay
  | inr (e, lt) ↦ rw e (omega (arith, more lt))
]

-- While the window of `k` is live, at most what is left of the allowance is granted to `k`, whatever
-- other connectors call in between.
granted-le :
    (k : RateKey) (r : RateLimiter) (w : Window) (per_hour : ℤ) (calls : List Call)
    → find k r ≡ some w
    → w.count ≤ pos_part per_hour
    → All (Within k per_hour (w.start + rate_window)) calls
    → w.count + granted k r calls ≤ pos_part per_hour
unfolding granted
granted-le k r w per_hour [] h le _ = omega arith
granted-le k r w per_hour (c ∷ calls) h le ((early, same), rest) =
    elim (Bool-cases (key_eq c.key k)) [
      | inl mine ↦
          rw (mine, key_eq_sound c.key k mine, same mine)
            (own_le k r w per_hour c.now calls h (ground arith)
              (granted-le k r w per_hour calls h le rest)
              λ lt.
                granted-le k (set k (record w { count = suc w.count }) r)
                  (record w { count = suc w.count }) per_hour calls (rw (find-set, key_eq_refl k))
                  lt rest)
      | inr other ↦ rw other (
          granted-le k (allow r c.key c.per_hour c.now).0 w per_hour calls
            (allow-other k r w c h (ground arith) other) le rest)
    ]

-- No allowance, no call.
granted-zero :
    (k : RateKey) (r : RateLimiter) (per_hour : ℤ) (calls : List Call)
    → leb_ℤ per_hour (pos 0) ≡ true
    → All (λ c. (key_eq c.key k ≡ true) → c.per_hour ≡ per_hour) calls
    → granted k r calls ≡ 0
unfolding granted allow
granted-zero k r per_hour [] none_allowed _ = refl
granted-zero k r per_hour (c ∷ calls) none_allowed (same, rest) =
    ground
      (arith, granted-zero k (allow r c.key c.per_hour c.now).0 per_hour calls none_allowed rest)

-- `k` has no live window at `now`.
abbrev pub IsFresh : RateKey → RateLimiter → ℕ → Type 0
IsFresh k r now = (find k r ≡ none) ⊎ ((w : Window) × (find k r ≡ some w) × (expired w now ≡ true))

allow-fresh :
    (k : RateKey) (r : RateLimiter) (per_hour : ℤ) (now : ℕ)
    → IsFresh k r now
    → leb_ℤ per_hour (pos 0) ≡ false
    → (find k (allow r k per_hour now).0 ≡ some (fresh_window now))
      × ((allow r k per_hour now).1 ≡ true)
allow-fresh k r per_hour now f positive = (
  rw (opened f)
      (find-sweep k now _ (fresh_window now) (rw (find-set, key_eq_refl k)) (ground arith)),
  ap (λ t. t.1) (opened f),
)
  where
    opened :
        IsFresh k r now → allow r k per_hour now ≡ (sweep now (set k (fresh_window now) r), true)
    opened (inl e) = unfold allow in rw (positive, e)
    opened (inr (w, e, x)) = unfold allow in rw (positive, e, x)

Within-same :
    (k : RateKey) (per_hour : ℤ) (end : ℕ) (calls : List Call)
    → All (Within k per_hour end) calls
    → All (λ c. (key_eq c.key k ≡ true) → c.per_hour ≡ per_hour) calls
Within-same k per_hour end [] h = tt
Within-same k per_hour end (c ∷ calls) ((_, same), rest) =
    (same, Within-same k per_hour end calls rest)

-- From the call that opens a window until the window ends, a connector is granted at most its hourly
-- allowance, however the calls of other connectors and orgs fall in between; with an allowance that
-- is not positive it is granted nothing.
pub granted-bound :
    (k : RateKey) (r : RateLimiter) (per_hour : ℤ) (now : ℕ) (calls : List Call)
    → IsFresh k r now
    → All (Within k per_hour (now + rate_window)) calls
    → granted k r (record { key = k; per_hour = per_hour; now = now } ∷ calls) ≤ pos_part per_hour
granted-bound k r per_hour now calls f h = elim (Bool-cases (leb_ℤ per_hour (pos 0))) [
  | inl zero_allowed ↦ omega (
    arith,
    granted-zero k r per_hour (record { key = k; per_hour = per_hour; now = now } ∷ calls)
        zero_allowed ((λ _. refl), Within-same k per_hour (now + rate_window) calls h),
  )
  | inr positive ↦
      let (found, granted_now) = allow-fresh k r per_hour now f positive in
      opened (key_eq_refl k) granted_now (
        granted-le k (allow r k per_hour now).0 (fresh_window now) per_hour calls found
          (ground arith) h)
]
  where
    opened :
        key_eq k k ≡ true
        → (allow r k per_hour now).1 ≡ true
        → 1 + granted k (allow r k per_hour now).0 calls ≤ pos_part per_hour
        → granted k r (record { key = k; per_hour = per_hour; now = now } ∷ calls)
          ≤ pos_part per_hour
    opened e g le = unfold granted in rw (e, g) (omega (arith, le))
