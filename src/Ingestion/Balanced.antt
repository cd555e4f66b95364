-- ===== src/Ingestion/Balanced.antt =====
-- The lines that a movement is booked with.
use stelfin.Prelude.{
  ℕ, suc, ◌<◌, List, [], ◌∷◌, ◌++◌, ◌==◌, false, ◌≡◌, inl, inr, refl, ap, ◌∙◌, subst, Result, ok,
  err, ok-injective, map, Option, none, some, All, All-append, Bool-cases, arith, if◌then◌else◌,
}
use stelfin.Prelude.Int.{pos, negsuc, wrap, half, ◌+ℤ◌, neg as negate}
use stelfin.Text.{Bytes}
use stelfin.Ledger.{check_lines}
use stelfin.Ledger.Validate.Lines.{check_lines_complete}
use mathlib.Core.Path.{ap₂}
use stelfin.Ingestion.{Error, TrackedAddress, Ingester, Act, continue, ◌>>=◌, return}
use stelfin.Ingestion.Apply.{
  OrgEntry, line, minus, withdrawal, deposit, external_for, leaving, entering, across, entries_for,
}

minus-pos : (n : ℕ) → suc n < half → minus (pos (suc n)) ≡ negsuc n
unfolding wrap negate
minus-pos n h = ground arith

-- An amount out of one account and into another.
moved :
    (a b asset n : ℕ)
    → suc n < half
    → check_lines (line a asset (negsuc n) ∷ line b asset (pos (suc n)) ∷ []) ≡ ok tt
unfolding ◌+ℤ◌
moved a b asset n h =
    check_lines_complete (line a asset (negsuc n) ∷ line b asset (pos (suc n)) ∷ [])
      (ground arith, (ground arith, tt)) (ground arith, (ground arith, tt)) (λ s. ground arith)

moved_back :
    (a b asset n : ℕ)
    → suc n < half
    → check_lines (line a asset (pos (suc n)) ∷ line b asset (negsuc n) ∷ []) ≡ ok tt
unfolding ◌+ℤ◌
moved_back a b asset n h =
    check_lines_complete (line a asset (pos (suc n)) ∷ line b asset (negsuc n) ∷ [])
      (ground arith, (ground arith, tt)) (ground arith, (ground arith, tt)) (λ s. ground arith)

-- The ledger's own check passes.
abbrev pub Checked : OrgEntry → Type 0
Checked e = check_lines e.postings ≡ ok tt

-- What an action returns, if it succeeds.
pub Returns : {A : Type 0} → (A → Type 0) → Act A → Type 0
Returns {A = A} Q m = (i : Ingester) (a : A) → (m i).1 ≡ ok a → Q a

continue-Returns :
    {A B : Type 0} (Q : A → Type 0) (R : B → Type 0) (f : A → Act B)
    → ((a : A) → Q a → Returns R (f a))
    → (r : Ingester × Result Error A) (b : B) → ((a : A) → r.1 ≡ ok a → Q a)
    → (continue f r).1 ≡ ok b
    → R b
unfolding Returns
continue-Returns Q R f k (i, ok a) b q h = k a (q a refl) i b h
continue-Returns Q R f k (i, err e) b q h = cc

>>=-Returns :
    {A B : Type 0} (Q : A → Type 0) (R : B → Type 0) (m : Act A) (f : A → Act B)
    → Returns Q m
    → ((a : A) → Q a → Returns R (f a))
    → Returns R (m >>= f)
unfolding Returns
>>=-Returns Q R m f q k i b h = continue-Returns Q R f k (m i) b (q i) h

-- What holds of every value holds of what is returned.
any-Returns : {A : Type 0} (Q : A → Type 0) (m : Act A) → ((a : A) → Q a) → Returns Q m
unfolding Returns
any-Returns Q m q i a h = q a

return-Returns : {A : Type 0} (Q : A → Type 0) (a : A) → Q a → Returns Q (return a)
unfolding Returns
return-Returns Q a q i b h = subst Q (ok-injective h) q

-- The orgs that have to record a movement: those that its ends belong to.
abbrev pub orgs_of : Option TrackedAddress → Option TrackedAddress → List ℕ
orgs_of none none = []
orgs_of (some from) none = from.org ∷ []
orgs_of none (some to) = to.org ∷ []
orgs_of (some from) (some to) = if from.org == to.org then from.org ∷ [] else from.org ∷ to.org ∷ []

abbrev pub Booked : Option TrackedAddress → Option TrackedAddress → List OrgEntry → Type 0
Booked from to es = All Checked es × (map (λ e. e.org) es ≡ orgs_of from to)

map-org :
    (xs ys : List OrgEntry)
    → map (λ e. e.org) (xs ++ ys) ≡ map (λ e. e.org) xs ++ map (λ e. e.org) ys
map-org [] ys = refl
map-org (x ∷ xs) ys = ap (λ l. x.org ∷ l) (map-org xs ys)

-- No org that both ends belong to.
abbrev Apart : Option TrackedAddress → Option TrackedAddress → Type 0
Apart (some x) (some y) = (x.org == y.org) ≡ false
Apart _ _ = Unit {0}

orgs_of-Apart :
    (from to : Option TrackedAddress)
    → Apart from to
    → orgs_of from none ++ orgs_of none to ≡ orgs_of from to
orgs_of-Apart none none h = refl
orgs_of-Apart none (some y) h = refl
orgs_of-Apart (some x) none h = refl
orgs_of-Apart (some x) (some y) h = rw h refl

module _ (hash lower : Bytes → Bytes) where
  leaving-Booked :
      (from : Option TrackedAddress) (asset n : ℕ)
      → suc n < half
      → Returns (Booked from none) (leaving hash lower from asset (pos (suc n)))
  unfolding leaving
  leaving-Booked none asset n h = return-Returns (Booked none none) [] (tt, refl)
  leaving-Booked (some x) asset n h =
      >>=-Returns (λ ext. Unit {0}) (Booked (some x) none) (external_for hash lower x.org)
        (λ ext. return (withdrawal ext x asset (pos (suc n)) ∷ [])) (any-Returns _ _ λ ext. tt)
        (λ ext _.
          return-Returns (Booked (some x) none) _
            ((rw (minus-pos n h) (moved x.account ext asset n h), tt), refl))

  entering-Booked :
      (to : Option TrackedAddress) (asset n : ℕ)
      → suc n < half
      → Returns (Booked none to) (entering hash lower to asset (pos (suc n)))
  unfolding entering
  entering-Booked none asset n h = return-Returns (Booked none none) [] (tt, refl)
  entering-Booked (some y) asset n h =
      >>=-Returns (λ ext. Unit {0}) (Booked none (some y)) (external_for hash lower y.org)
        (λ ext. return (deposit ext y asset (pos (suc n)) ∷ [])) (any-Returns _ _ λ ext. tt)
        (λ ext _.
          return-Returns (Booked none (some y)) _
            ((rw (minus-pos n h) (moved_back y.account ext asset n h), tt), refl))

  across-Booked :
      (from to : Option TrackedAddress) (asset n : ℕ)
      → suc n < half
      → Apart from to
      → Returns (Booked from to) (across hash lower from to asset (pos (suc n)))
  across-Booked from to asset n h apart =
      >>=-Returns (Booked from none) (Booked from to) (leaving hash lower from asset (pos (suc n)))
        (λ out. entering hash lower to asset (pos (suc n)) >>= λ into. return (out ++ into))
        (leaving-Booked from asset n h)
        (λ out qo.
          >>=-Returns (Booked none to) (Booked from to) (entering hash lower to asset (pos (suc n)))
            (λ into. return (out ++ into)) (entering-Booked to asset n h)
            (λ into qi. return-Returns (Booked from to) (out ++ into) (
              All-append Checked out into qo.0 qi.0,
              map-org out into ∙ ap₂ ◌++◌ qo.1 qi.1 ∙ orgs_of-Apart from to apart,
            )))

  -- A positive amount that an int64 holds is booked, when that succeeds, as one entry for each org that an
  -- end of the movement belongs to and none for any other, and the lines of each pass the check of `Post`.
  pub entries_for-Booked :
      (from to : Option TrackedAddress) (asset n : ℕ)
      → suc n < half
      → (i : Ingester) (es : List OrgEntry)
      → (entries_for hash lower from to asset (pos (suc n)) i).1 ≡ ok es
      → Booked from to es
  unfolding entries_for Returns
  entries_for-Booked none none asset n h = across-Booked none none asset n h tt
  entries_for-Booked none (some y) asset n h = across-Booked none (some y) asset n h tt
  entries_for-Booked (some x) none asset n h = across-Booked (some x) none asset n h tt
  entries_for-Booked (some x) (some y) asset n h = elim (Bool-cases (x.org == y.org)) [
    | inr e ↦ λ i es.
        rw (e, entries_for)
          (λ q.
            let booked = across-Booked (some x) (some y) asset n h e i es q in
            (booked.0, booked.1 ∙ rw e refl))
    | inl e ↦ λ i es.
        rw (e, entries_for)
          (λ q.
            subst (λ es. All Checked es × (map (λ e. e.org) es ≡ x.org ∷ [])) (ok-injective q)
              ((rw (minus-pos n h) (moved x.account y.account asset n h), tt), refl))
  ]
