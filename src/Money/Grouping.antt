-- ===== src/Money/Grouping.antt =====
-- `group` of internal/money/money.go: the separators are where they belong, and nothing is lost.
use stelfin.Prelude.{
  ℕ, zero, suc, ◌+◌, ◌%◌, ◌≤◌, [], ◌∷◌, ◌++◌, false, ◌≡◌, ◌≢◌, refl, sym, ap, ◌∙◌, arith,
  if◌then◌else◌, All, length, take, drop, append_assoc, append-nil, leb, take-append-drop,
  length-take, length-drop, inl, inr, Bool-cases,
}
use stelfin.Text.{Bytes, IsDigit, format_uint, is_empty}
use stelfin.Text.Decimal.{format_uint-IsDigit, format_uint-ne-nil}
use stelfin.Text.Grouped.{
  Threes, IsGrouped, no_more, comma, without_commas, without_commas-append, without_commas-digits,
}
use stelfin.Money.{group, group_loop}

append-nonempty : (xs : Bytes) (c : ℕ) (ys : Bytes) → is_empty (xs ++ c ∷ ys) ≡ false
append-nonempty [] c ys = refl
append-nonempty (x ∷ xs) c ys = refl

join_group :
    (out : Bytes) (a b c : ℕ)
    → All IsDigit (a ∷ b ∷ c ∷ [])
    → without_commas ((if is_empty out then out else out ++ b',' ∷ []) ++ a ∷ b ∷ c ∷ [])
      ≡ without_commas out ++ a ∷ b ∷ c ∷ []
join_group [] a b c h = unfold without_commas in without_commas-digits (a ∷ b ∷ c ∷ []) h
join_group (x ∷ out) a b c h =
    without_commas-append ((x ∷ out) ++ b',' ∷ []) (a ∷ b ∷ c ∷ [])
    ∙ rw (without_commas-append (x ∷ out) (b',' ∷ []), without_commas-digits (a ∷ b ∷ c ∷ []) h)
        (unfold without_commas in rw append-nil)

group_loop-digits :
    (rest out : Bytes)
    → All IsDigit rest
    → length rest % 3 ≡ 0
    → without_commas (group_loop rest out) ≡ without_commas out ++ rest
unfolding group_loop
group_loop-digits [] out h e = sym (append-nil (without_commas out))
group_loop-digits (a ∷ []) out h e = absurd (omega arith)
group_loop-digits (a ∷ b ∷ []) out h e = absurd (omega arith)
group_loop-digits (a ∷ b ∷ c ∷ rest) out (ha, (hb, (hc, hr))) e =
    group_loop-digits rest _ hr (omega arith)
    ∙ ap (λ t. t ++ rest) (join_group out a b c (ha, (hb, (hc, tt))))
    ∙ append_assoc (without_commas out) (a ∷ b ∷ c ∷ []) rest

All-drop : (k : ℕ) (s : Bytes) → All IsDigit s → All IsDigit (drop k s)
All-drop zero s h = h
All-drop (suc k) [] h = tt
All-drop (suc k) (c ∷ s) (hc, hs) = All-drop k s hs

pub All-take : (k : ℕ) (s : Bytes) → All IsDigit s → All IsDigit (take k s)
All-take zero s h = tt
All-take (suc k) [] h = tt
All-take (suc k) (c ∷ s) (hc, hs) = (hc, All-take k s hs)

pub group-format_uint : (n : ℕ) → without_commas (group n) ≡ format_uint n
unfolding group
group-format_uint n =
    let plain = format_uint n in
    let lead = length plain % 3 in
    let digits = format_uint-IsDigit n in
    elim (Bool-cases (leb (length plain) 3)) [
      | inl e ↦ rw e (without_commas-digits plain digits)
      | inr e ↦ rw e (
          group_loop-digits (drop lead plain) (take lead plain) (All-drop lead plain digits)
            (omega (arith, length-drop lead plain))
          ∙ ap (λ t. t ++ drop lead plain)
              (without_commas-digits (take lead plain) (All-take lead plain digits))
          ∙ take-append-drop lead plain)
    ]

-- The loop puts a comma before each three digits that it adds to what is there.
group_loop-Threes :
    (rest out : Bytes)
    → is_empty out ≡ false
    → All IsDigit rest
    → length rest % 3 ≡ 0
    → (groups : Bytes) × (group_loop rest out ≡ out ++ groups) × Threes groups
unfolding group_loop
group_loop-Threes [] out n h e = ([], sym (append-nil out), no_more)
group_loop-Threes (a ∷ []) out n h e = absurd (omega arith)
group_loop-Threes (a ∷ b ∷ []) out n h e = absurd (omega arith)
group_loop-Threes (a ∷ b ∷ c ∷ rest) out n (ha, (hb, (hc, hr))) e =
    let out' = (out ++ b',' ∷ []) ++ a ∷ b ∷ c ∷ [] in
    let (groups, same, threes) =
      group_loop-Threes rest out' (append-nonempty (out ++ b',' ∷ []) a (b ∷ c ∷ [])) hr
        (omega arith) in
    (
      b',' ∷ a ∷ b ∷ c ∷ groups,
      rw n (
          same
          ∙ append_assoc (out ++ b',' ∷ []) (a ∷ b ∷ c ∷ []) groups
          ∙ append_assoc out (b',' ∷ []) (a ∷ b ∷ c ∷ groups)),
      comma (ha, (hb, (hc, tt))) threes,
    )

length-nonempty : (s : Bytes) → is_empty s ≡ false → 1 ≤ length s
length-nonempty [] h = cc
length-nonempty (c ∷ s) h = omega arith

ne-nil-is_empty : (s : Bytes) → s ≢ [] → is_empty s ≡ false
ne-nil-is_empty [] h = absurd (h refl)
ne-nil-is_empty (c ∷ s) h = refl

grouped :
    (rest out : Bytes)
    → is_empty out ≡ false
    → length out ≤ 3
    → All IsDigit out
    → All IsDigit rest
    → length rest % 3 ≡ 0
    → IsGrouped (group_loop rest out)
grouped rest out n short ho hr e =
    let (groups, same, threes) = group_loop-Threes rest out n hr e in
    record {
      lead = out;
      groups = groups;
      parts = same;
      nonempty = length-nonempty out n;
      short = short;
      digits = ho;
      threes = threes;
    }

-- With no lead the first three digits take its place.
group_loop-IsGrouped :
    (rest out : Bytes)
    → 1 ≤ length rest + length out
    → length out ≤ 3
    → All IsDigit out
    → All IsDigit rest
    → length rest % 3 ≡ 0
    → IsGrouped (group_loop rest out)
unfolding group_loop
group_loop-IsGrouped rest (o ∷ out) some_digit short ho hr e =
    grouped rest (o ∷ out) refl short ho hr e
group_loop-IsGrouped [] [] some_digit short ho hr e = absurd (omega arith)
group_loop-IsGrouped (a ∷ []) [] some_digit short ho hr e = absurd (omega arith)
group_loop-IsGrouped (a ∷ b ∷ []) [] some_digit short ho hr e = absurd (omega arith)
group_loop-IsGrouped (a ∷ b ∷ c ∷ rest) [] some_digit short ho (ha, (hb, (hc, hr))) e =
    grouped rest (a ∷ b ∷ c ∷ []) refl (omega arith) (ha, (hb, (hc, tt))) hr (omega arith)

plain-IsGrouped : (s : Bytes) → 1 ≤ length s → length s ≤ 3 → All IsDigit s → IsGrouped s
plain-IsGrouped s nonempty short digits = record {
  lead = s;
  groups = [];
  parts = sym (append-nil s);
  nonempty = nonempty;
  short = short;
  digits = digits;
  threes = no_more;
}

pub group-IsGrouped : (n : ℕ) → IsGrouped (group n)
unfolding group
group-IsGrouped n =
    let plain = format_uint n in
    let lead = length plain % 3 in
    let digits = format_uint-IsDigit n in
    let some_digit = length-nonempty plain (ne-nil-is_empty plain (format_uint-ne-nil n)) in
    elim (Bool-cases (leb (length plain) 3)) [
      | inl e ↦ rw e (plain-IsGrouped plain some_digit (ground arith) digits)
      | inr e ↦
          let dropped = length-drop lead plain in
          let taken = length-take lead plain in
          rw e (
            group_loop-IsGrouped (drop lead plain) (take lead plain) (omega (arith, dropped, taken))
              (omega (arith, taken)) (All-take lead plain digits) (All-drop lead plain digits)
              (omega (arith, dropped)))
    ]
