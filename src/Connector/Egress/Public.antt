-- ===== src/Connector/Egress/Public.antt =====
-- Which addresses pass, as ranges of numbers.
use native.Mathlib.Nat.{pow-suc, le-div_iff_mul-le, div-lt_iff_lt-mul}
use stelfin.Prelude.{
  ℕ, zero, suc, ◌*◌, ◌-◌, ◌/◌, ◌^◌, ◌≤◌, ◌<◌, List, [], ◌∷◌, Bool, true, false, ◌||◌, not, ◌≡◌, ◌↔◌,
  ◌⊎◌, inl, inr, refl, sym, ◌∙◌, arith, ok, refuse_if, refuse_if-eq-ok, any, All, Bool-cases,
  ==_iff,
}
use stelfin.Text.{Bytes}
use stelfin.Connector.Egress.{
  forbidden_address, Addr, no_address, ip4, ip6, Prefix, refused4, refused6, global6, holds, unmap,
  check_ranges, check_addr,
}

size_pos : (k : ℕ) → 0 < 2 ^ k
size_pos zero = ground arith
size_pos (suc k) = rw pow-suc (omega (arith, size_pos k))

-- How many addresses a block has, the first of them, and the one behind the last.
abbrev pub size : ℕ → Prefix → ℕ
size width p = 2 ^ (width - p.bits)

abbrev pub first : ℕ → Prefix → ℕ
first width p = p.base / size width p * size width p

abbrev pub behind : ℕ → Prefix → ℕ
behind width p = suc (p.base / size width p) * size width p

abbrev pub Within : ℕ → ℕ → Prefix → Type 0
Within width n p = (first width p ≤ n) × (n < behind width p)

abbrev pub Outside : ℕ → ℕ → Prefix → Type 0
Outside width n p = (n < first width p) ⊎ (behind width p ≤ n)

holds_iff : (width n : ℕ) (p : Prefix) → (holds width n p ≡ true) ↔ Within width n p
unfolding holds
holds_iff width n p =
    let s = size width p in
    let q = p.base / s in
    let positive = size_pos (width - p.bits) in
    let low = le-div_iff_mul-le {k = s} {x = q} {y = n} positive in
    let high = div-lt_iff_lt-mul {k = s} {x = n} {y = suc q} positive in
    (
      λ h. let e = (==_iff (n / s) q).0 h in (low.0 (omega (arith, e)), high.0 (omega (arith, e))),
      λ (l, h). (==_iff (n / s) q).1 (omega (arith, low.1 l, high.1 h)),
    )

true≢false : ◌≡◌ {A = Bool} true false → ⊥
true≢false e = cc

lt_or_ge : (a b : ℕ) → (a < b) ⊎ (b ≤ a)
lt_or_ge a b = ground arith

misses_iff : (width n : ℕ) (p : Prefix) → (holds width n p ≡ false) ↔ Outside width n p
misses_iff width n p = elim (Bool-cases (holds width n p)) [
  | inl e ↦
      let (l, h) = (holds_iff width n p).0 e in
      rw e (
        λ h. cc,
        λ o. elim o [ inl x ↦ absurd (omega (arith, l, x)) | inr x ↦ absurd (omega (arith, h, x)) ],
      )
  | inr e ↦ (λ _. outside (lt_or_ge n (first width p)) (lt_or_ge n (behind width p)) e, λ _. e)
]
  where
    outside :
        (n < first width p) ⊎ (first width p ≤ n)
        → (n < behind width p) ⊎ (behind width p ≤ n)
        → holds width n p ≡ false
        → Outside width n p
    outside (inl l) _ e = inl l
    outside (inr _) (inr h) e = inr h
    outside (inr l) (inl h) e = absurd (true≢false (sym ((holds_iff width n p).1 (l, h)) ∙ e))

neither : (a b : Bool) → (a || b) ≡ false → (a ≡ false) × (b ≡ false)
neither true b h = cc
neither false b h = (refl, h)

not-false : (b : Bool) → not b ≡ false → b ≡ true
not-false true h = refl
not-false false h = cc

any_iff :
    (width n : ℕ) (ps : List Prefix) → (any (holds width n) ps ≡ false) ↔ All (Outside width n) ps
any_iff width n [] = (λ h. tt, λ h. refl)
any_iff width n (p ∷ ps) = (
  λ h.
      let (a, b) = neither (holds width n p) (any (holds width n) ps) h in
      ((misses_iff width n p).0 a, (any_iff width n ps).0 b),
  λ (o, os). rw ((misses_iff width n p).1 o, (any_iff width n ps).1 os) refl,
)

passes_iff : (b : Bool) → (refuse_if b forbidden_address ≡ ok tt) ↔ (b ≡ false)
passes_iff true = (λ h. cc, λ h. cc)
passes_iff false = (λ h. refl, λ h. refl)

-- Not one of the numbers from the first up to, but not including, the second.
abbrev pub Misses : ℕ → ℕ × ℕ → Type 0
Misses n (low, high) = (n < low) ⊎ (high ≤ n)

-- What is not public of IPv4, by its numbers: 0.0.0.0/8, 10.0.0.0/8, 100.64.0.0/10, 127.0.0.0/8,
-- 169.254.0.0/16, 172.16.0.0/12, 192.0.0.0/24, 192.0.2.0/24, 192.88.99.0/24, 192.168.0.0/16,
-- 198.18.0.0/15, 198.51.100.0/24, 203.0.113.0/24, 224.0.0.0/4 and 240.0.0.0/4.
abbrev pub closed4 : List (ℕ × ℕ)
closed4 =
    (0x00000000, 0x01000000)
    ∷ (0x0A000000, 0x0B000000)
    ∷ (0x64400000, 0x64800000)
    ∷ (0x7F000000, 0x80000000)
    ∷ (0xA9FE0000, 0xA9FF0000)
    ∷ (0xAC100000, 0xAC200000)
    ∷ (0xC0000000, 0xC0000100)
    ∷ (0xC0000200, 0xC0000300)
    ∷ (0xC0586300, 0xC0586400)
    ∷ (0xC0A80000, 0xC0A90000)
    ∷ (0xC6120000, 0xC6140000)
    ∷ (0xC6336400, 0xC6336500)
    ∷ (0xCB007100, 0xCB007200)
    ∷ (0xE0000000, 0xF0000000)
    ∷ (0xF0000000, 0x100000000)
    ∷ []

-- What is not public of 2000::/3: 2001::/23, 2001:db8::/32, 2002::/16 and 3fff::/20.
abbrev pub closed6 : List (ℕ × ℕ)
closed6 =
    (0x20010000 * 2 ^ 96, 0x20010200 * 2 ^ 96)
    ∷ (0x20010DB8 * 2 ^ 96, 0x20010DB9 * 2 ^ 96)
    ∷ (0x2002 * 2 ^ 112, 0x2003 * 2 ^ 112)
    ∷ (0x3FFF0 * 2 ^ 108, 0x3FFF1 * 2 ^ 108)
    ∷ []

-- The addresses of the public internet: of IPv6, those of 2000::/3 less the blocks in it.
abbrev pub IsPublic : Addr → Type 0
IsPublic no_address = ⊥
IsPublic (ip4 n) = All (Misses n) closed4
IsPublic (ip6 n zone) = (0x2 * 2 ^ 124 ≤ n) × (n < 0x4 * 2 ^ 124) × All (Misses n) closed6

-- The blocks of the code that are not among the ranges lie outside 2000::/3.
refused6_iff :
    (n : ℕ) (zone : Bytes)
    → (All (Outside 128 n) refused6 × Within 128 n global6) ↔ IsPublic (ip6 n zone)
refused6_iff n zone = (
  λ ((_, (_, (_, (_, (_, (_, (_, (a, (b, (c, (d, _))))))))))), (l, h)).
      (l, h, (a, (b, (c, (d, tt))))),
  λ (l, h, (a, (b, (c, (d, _))))).
      let below : (high : ℕ) → high ≤ 0x2 * 2 ^ 124 → high ≤ n = λ high k. omega (arith, k, l) in
      let above : (low : ℕ) → 0x4 * 2 ^ 124 ≤ low → n < low = λ low k. omega (arith, k, h) in
      (
        (
          inr (below _ (omega arith)),
          (
            inr (below _ (omega arith)),
            (
              inr (below _ (omega arith)),
              (
                inr (below _ (omega arith)),
                (
                  inr (below _ (omega arith)),
                  (
                    inr (below _ (omega arith)),
                    (
                      inr (below _ (omega arith)),
                      (
                        a,
                        (
                          b,
                          (
                            c,
                            (
                              d,
                              (
                                inl (above _ (omega arith)),
                                (
                                  inl (above _ (omega arith)),
                                  (
                                    inl (above _ (omega arith)),
                                    (
                                      inl (above _ (omega arith)),
                                      (inl (above _ (omega arith)), tt),
                                    ),
                                  ),
                                ),
                              ),
                            ),
                          ),
                        ),
                      ),
                    ),
                  ),
                ),
              ),
            ),
          ),
        ),
        (l, h),
      ),
)

check_ranges_iff : (a : Addr) → (check_ranges a ≡ ok tt) ↔ IsPublic a
unfolding check_ranges
check_ranges_iff no_address = (λ h. cc, λ h. absurd h)
check_ranges_iff (ip4 n) = (
  λ h. (any_iff 32 n refused4).0 ((passes_iff (any (holds 32 n) refused4)).0 h),
  λ o. (passes_iff (any (holds 32 n) refused4)).1 ((any_iff 32 n refused4).1 o),
)
check_ranges_iff (ip6 n zone) = (
  λ h.
      let (a, h) = refuse_if-eq-ok (any (holds 128 n) refused6) forbidden_address _ h in
      (refused6_iff n zone).0 (
        (any_iff 128 n refused6).0 a,
        (holds_iff 128 n global6).0
            (not-false (holds 128 n global6) ((passes_iff (not (holds 128 n global6))).0 h)),
      ),
  λ p.
      let (o, w) = (refused6_iff n zone).1 p in
      rw ((any_iff 128 n refused6).1 o, (holds_iff 128 n global6).1 w) refl,
)

-- An address without a zone.
abbrev pub NoZone : Addr → Type 0
NoZone (ip6 n zone) = zone ≡ []
NoZone _ = Unit {0}

-- Without the exception for loopback, an address may be dialled exactly when it names no interface and
-- what it is, once an IPv4 address that it carries is taken out of it, is public: outside the listed
-- blocks of IPv4, or in 2000::/3 and outside the listed blocks of IPv6.
pub check_addr_iff : (a : Addr) → (check_addr a false ≡ ok tt) ↔ (NoZone a × IsPublic (unmap a))
unfolding check_addr unmap
check_addr_iff no_address = (λ h. cc, λ h. absurd h.1)
check_addr_iff (ip4 n) =
    (λ h. (tt, (check_ranges_iff (ip4 n)).0 h), λ h. (check_ranges_iff (ip4 n)).1 h.1)
check_addr_iff (ip6 n []) = (
  λ h. (refl, (check_ranges_iff (unmap (ip6 n []))).0 h),
  λ h. (check_ranges_iff (unmap (ip6 n []))).1 h.1,
)
check_addr_iff (ip6 n (c ∷ zone)) = (λ h. cc, λ h. absurd (nonempty h.0))
  where
    nonempty : ◌≡◌ {A = Bytes} (c ∷ zone) [] → ⊥
    nonempty e = cc
