-- ===== src/Chat/Split/Taking.antt =====
-- What `cut` takes off a word, and what it leaves.
use stelfin.Prelude.{
  ℕ, ◌+◌, ◌≤◌, ◌<◌, [], ◌∷◌, ◌++◌, ltb, ◌≡◌, ◌≢◌, inl, inr, refl, arith, Bool-cases, length,
  length-append, ltb→ge, ltb→lt,
}
use stelfin.Chat.Split.{Runes, width, units, cut_from, cut}

-- What cut takes off is no longer than the limit, and what it leaves comes behind it.
pub cut_from-whole :
    (limit n : ℕ) (s : Runes) → (cut_from limit n s).0 ++ (cut_from limit n s).1 ≡ s
cut_from-whole limit n [] = refl
cut_from-whole limit n (c ∷ s) = elim (Bool-cases (ltb limit (n + width c))) [
  | inl e ↦ rw e refl
  | inr e ↦ rw (e, cut_from-whole limit (n + width c) s) refl
]

pub cut_from-short :
    (limit n : ℕ) (s : Runes) → n ≤ limit → n + units (cut_from limit n s).0 ≤ limit
cut_from-short limit n [] h = omega arith
cut_from-short limit n (c ∷ s) h = elim (Bool-cases (ltb limit (n + width c))) [
  | inl e ↦ rw e (omega arith)
  | inr e ↦
      let room = ltb→ge limit (n + width c) e in
      let rest = cut_from-short limit (n + width c) s room in rw e (omega arith)
]

pub width_bound : (c : ℕ) → (1 ≤ width c) × (width c ≤ 2)
width_bound c = ground arith

-- With room for any character, a long word gets shorter.
pub cut_shortens :
    (limit : ℕ) (s : Runes)
    → 2 ≤ limit
    → limit < units s
    → ((cut s limit).0 ≢ []) × (length (cut s limit).1 < length s)
cut_shortens limit [] h long = absurd (omega arith)
cut_shortens limit (c ∷ s) h long = elim (Bool-cases (ltb limit (0 + width c))) [
  | inl e ↦ let wide = ltb→lt limit (0 + width c) e in absurd (omega (arith, (width_bound c).1))
  | inr e ↦
      let rest = cut_from-whole limit (0 + width c) s in
      let sizes =
        length-append (cut_from limit (0 + width c) s).0 (cut_from limit (0 + width c) s).1 in
      let size = rw rest at sizes in rw e (λ x. cc, omega arith)
]
