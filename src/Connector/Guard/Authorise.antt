-- ===== src/Connector/Guard/Authorise.antt =====
-- When the guard lets a call through, and what a refused call costs.
use stelfin.Prelude.{
  ℕ, List, [], ◌∷◌, Bool, true, false, not, ◌≡◌, ◌≢◌, ◌↔◌, ◌⊎◌, inl, inr, refl, arith, Option, none,
  some, ok, err, refuse_if, Option-cases, Result-cases, any, refuse_if-eq-ok,
}
use stelfin.Prelude.Int.{pos, negsuc, ◌≤ℤ◌}
use stelfin.Text.{Bytes, bytes_eq, is_empty}
use stelfin.Text.Equality.{bytes_eq_iff}
use stelfin.Connector.Guard.{
  Error, not_granted, surface_changed, capability_not_granted, rate_exceeded, malformed_descriptor,
  spend, permitted, Kind, reader, proposer, other, Descriptor, Grant, Request, Limiter, bound,
  max_rows, check_descriptor, covers, surface, authorise,
}

-- One of the texts.
abbrev pub OneOf : Bytes → List Bytes → Type 0
OneOf s [] = ⊥
OneOf s (t ∷ ts) = (t ≡ s) ⊎ OneOf s ts

-- A descriptor that says what kind of connector it is, and has an id.
abbrev pub IsDescriptor : Descriptor → Type 0
IsDescriptor d = ((d.kind ≡ reader) ⊎ (d.kind ≡ proposer)) × (d.id ≢ [])

any-OneOf :
    (c : Bytes) (granted : List Bytes) → (any (λ g. bytes_eq g c) granted ≡ true) ↔ OneOf c granted
any-OneOf c [] = (λ h. cc, λ h. absurd h)
any-OneOf c (g ∷ gs) = (
  λ h. ground (arith, any-OneOf c gs, bytes_eq_iff g c),
  λ h. ground (arith, any-OneOf c gs, bytes_eq_iff g c),
)

covers_iff :
    (granted : List Bytes) (c : Bytes) → (covers granted c ≡ true) ↔ ((c ≢ []) × OneOf c granted)
unfolding covers
covers_iff granted [] = (λ h. cc, λ h. absurd (h.0 refl))
covers_iff granted (x ∷ c) =
    (λ h. (λ e. cc, (any-OneOf (x ∷ c) granted).0 h), λ h. (any-OneOf (x ∷ c) granted).1 h.1)

-- The request that reaches a connector asks for between one row and the ceiling.
pub bound_bounds :
    (r : Request)
    → (pos 1 ≤ℤ (bound r).limit)
      × ((bound r).limit ≤ℤ pos max_rows)
      × ((bound r).selector ≡ r.selector)
unfolding bound
bound_bounds r =
    elim r.limit
      as (λ n.
        (pos 1 ≤ℤ (bound (record r { limit = n })).limit)
        × ((bound (record r { limit = n })).limit ≤ℤ pos max_rows)
        × ((bound (record r { limit = n })).selector ≡ r.selector)) [
          | pos n ↦ ground arith
          | negsuc n ↦ ground arith
        ]

not-false : (b : Bool) → not b ≡ false → b ≡ true
not-false true h = refl
not-false false h = cc

is_empty-text : (s : Bytes) → (is_empty s ≡ false) ↔ (s ≢ [])
is_empty-text [] = (λ h. cc, λ h. absurd (h refl))
is_empty-text (x ∷ s) = (λ h e. cc, λ h. refl)

Kind-cases : (k : Kind) → (k ≡ reader) ⊎ (k ≡ proposer) ⊎ ((s : Bytes) × (k ≡ other s))
Kind-cases reader = inl refl
Kind-cases proposer = inr (inl refl)
Kind-cases (other s) = inr (inr (s, refl))

passes_iff : {E : Type 0} (c : Bool) (e : E) → (refuse_if c e ≡ ok tt) ↔ (c ≡ false)
passes_iff true e = (λ h. cc, λ h. cc)
passes_iff false e = (λ h. refl, λ h. refl)

check_descriptor_iff : (d : Descriptor) → (check_descriptor d ≡ ok tt) ↔ IsDescriptor d
unfolding check_descriptor
check_descriptor_iff d = elim (Kind-cases d.kind) [
  | inl e ↦ rw e (
    λ h. (inl refl, (is_empty-text d.id).0 ((passes_iff (is_empty d.id) malformed_descriptor).0 h)),
    λ h. (passes_iff (is_empty d.id) malformed_descriptor).1 ((is_empty-text d.id).1 h.1),
  )
  | inr (inl e) ↦ rw e (
    λ h. (inr refl, (is_empty-text d.id).0 ((passes_iff (is_empty d.id) malformed_descriptor).0 h)),
    λ h. (passes_iff (is_empty d.id) malformed_descriptor).1 ((is_empty-text d.id).1 h.1),
  )
  | inr (inr (s, e)) ↦ rw e (λ h. cc, λ h. elim h.0 [ inl k ↦ cc | inr k ↦ cc ])
]

module _ (digest : Bytes → Bytes) (grant_for : ℕ → Bytes → Option Grant) (l : Limiter) where
  -- What a DAO has to have granted for a call, and the limiter to allow.
  pub record Permits (s : l.State) (org : ℕ) (d : Descriptor) (capability : Bytes) (now : ℕ)
      : Type 0 where
    pub grant : Grant
    pub described : IsDescriptor d
    pub granted : grant_for org d.id ≡ some grant
    pub pinned : grant.surface_digest ≢ []
    pub same_surface : digest (surface d) ≡ grant.surface_digest
    pub named : (capability ≢ []) × OneOf capability grant.capabilities
    pub within : (l.allow_call s org d.id grant.per_hour now).1 ≡ some true

  spend-within :
      (r : l.State × Option Bool) → ((spend digest grant_for l r).1 ≡ ok tt) ↔ (r.1 ≡ some true)
  spend-within (s, none) = (λ h. cc, λ h. cc)
  spend-within (s, some false) = (λ h. cc, λ h. cc)
  spend-within (s, some true) = (λ h. refl, λ h. refl)

  permitted_iff :
      (d : Descriptor) (c : Bytes) (g : Grant)
      → (permitted digest grant_for l d c g ≡ ok tt) ↔ (
          (g.surface_digest ≢ [])
          × (digest (surface d) ≡ g.surface_digest)
          × ((c ≢ []) × OneOf c g.capabilities))
  permitted_iff d c g = (
    λ h.
        let (pinned, h) = refuse_if-eq-ok (is_empty g.surface_digest) not_granted _ h in
        let (same, h) =
          refuse_if-eq-ok (not (bytes_eq (digest (surface d)) g.surface_digest)) surface_changed _
            h in
        let granted = (passes_iff (not (covers g.capabilities c)) capability_not_granted).0 h in
        (
          (is_empty-text g.surface_digest).0 pinned,
          (bytes_eq_iff (digest (surface d)) g.surface_digest).0 (not-false _ same),
          (covers_iff g.capabilities c).0 (not-false _ granted),
        ),
    λ h.
        rw
          (
            (is_empty-text g.surface_digest).1 h.0,
            (bytes_eq_iff (digest (surface d)) g.surface_digest).1 h.1,
            (covers_iff g.capabilities c).1 h.2,
          )
          refl,
  )

  authorise-Permits :
      (s : l.State) (org : ℕ) (d : Descriptor) (c : Bytes) (now : ℕ)
      → (authorise digest grant_for l s org d c now).1 ≡ ok tt
      → Permits s org d c now
  unfolding authorise
  authorise-Permits s org d c now = elim (Result-cases (check_descriptor d)) [
    | inr (e, q) ↦ rw (q, authorise) (λ h. cc)
    | inl (_, q) ↦ elim (Option-cases (grant_for org d.id)) [
      | inl n ↦ rw (q, n, authorise) (λ h. cc)
      | inr (g, n) ↦ elim (Result-cases (permitted digest grant_for l d c g)) [
        | inr (e, k) ↦ rw (q, n, k, authorise) (λ h. cc)
        | inl (_, k) ↦
            rw (q, n, k, authorise)
              (λ h.
                let (pinned, same, named) = (permitted_iff d c g).0 k in
                record {
                  grant = g;
                  described = (check_descriptor_iff d).0 q;
                  granted = n;
                  pinned = pinned;
                  same_surface = same;
                  named = named;
                  within = (spend-within (l.allow_call s org d.id g.per_hour now)).0 h;
                })
      ]
    ]
  ]

  Permits-authorise :
      (s : l.State) (org : ℕ) (d : Descriptor) (c : Bytes) (now : ℕ)
      → Permits s org d c now
      → (authorise digest grant_for l s org d c now).1 ≡ ok tt
  unfolding authorise
  Permits-authorise s org d c now p =
      rw
        (
          (check_descriptor_iff d).1 p.described,
          p.granted,
          (permitted_iff d c p.grant).1 (p.pinned, p.same_surface, p.named),
          authorise,
        )
        ((spend-within (l.allow_call s org d.id p.grant.per_hour now)).1 p.within)

  -- The guard lets a call through exactly when the descriptor is well formed, the DAO has granted
  -- the connector, the surface it shows is the one pinned, the capability is named in the grant, and
  -- the limiter allows one more call at the rate granted.
  pub authorise_iff :
      (s : l.State) (org : ℕ) (d : Descriptor) (c : Bytes) (now : ℕ)
      → ((authorise digest grant_for l s org d c now).1 ≡ ok tt) ↔ Permits s org d c now
  authorise_iff s org d c now = (authorise-Permits s org d c now, Permits-authorise s org d c now)

  spend-unspent :
      (s : l.State) (e : Error)
      → e ≢ rate_exceeded
      → (r : l.State × Option Bool) → (spend digest grant_for l r).1 ≡ err e
      → ⊥
  spend-unspent s e ne (s', none) h = ne cc
  spend-unspent s e ne (s', some false) h = ne cc
  spend-unspent s e ne (s', some true) h = cc

  -- A call refused for any reason but the rate leaves the limiter as it was: it spends nothing of
  -- the allowance.
  pub refused_unspent :
      (s : l.State) (org : ℕ) (d : Descriptor) (c : Bytes) (now : ℕ) (e : Error)
      → (authorise digest grant_for l s org d c now).1 ≡ err e
      → e ≢ rate_exceeded
      → (authorise digest grant_for l s org d c now).0 ≡ s
  unfolding authorise
  refused_unspent s org d c now e = elim (Result-cases (check_descriptor d)) [
    | inr (e, q) ↦ rw (q, authorise) (λ h ne. refl)
    | inl (_, q) ↦ elim (Option-cases (grant_for org d.id)) [
      | inl n ↦ rw (q, n, authorise) (λ h ne. refl)
      | inr (g, n) ↦ elim (Result-cases (permitted digest grant_for l d c g)) [
        | inr (e, k) ↦ rw (q, n, k, authorise) (λ h ne. refl)
        | inl (_, k) ↦
            rw (q, n, k, authorise)
              (λ h ne. absurd (spend-unspent s e ne (l.allow_call s org d.id g.per_hour now) h))
      ]
    ]
  ]
