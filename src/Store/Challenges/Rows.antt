-- ===== src/Store/Challenges/Rows.antt =====
-- The rows of auth_challenges with one hash.
use stelfin.Prelude.{
  ℕ, List, [], ◌∷◌, Bool, true, false, ◌&&◌, not, any, map, ◌≡◌, inl, inr, refl, arith, Bool-cases,
  none, some, All, Pairwise, subst, some-injective,
}
use stelfin.Text.{Bytes, bytes_eq}
use stelfin.Text.Equality.{bytes_eq_refl, bytes_eq_sound}
use stelfin.Store.Members.Roles.{drop_if}
use stelfin.Store.Challenges.{
  Challenge, ChallengeRow, supersedes, is_unset, is_live, is_claimable, find_challenge, consume_row,
}

abbrev pub hashed : Bytes → ChallengeRow → Bool
hashed hash r = bytes_eq r.challenge.hash hash

-- The key of auth_challenges.
abbrev pub Keyed : ChallengeRow → ChallengeRow → Type 0
Keyed a b = bytes_eq a.challenge.hash b.challenge.hash ≡ false

abbrev pub spent : Bytes → ChallengeRow → Bool
spent hash r = hashed hash r && not (is_unset r.consumed_at)

abbrev pub unspent : Bytes → ChallengeRow → Bool
unspent hash r = hashed hash r && is_unset r.consumed_at

-- Only rows that are not consumed are superseded.
pub spent-drop_if :
    (c : Challenge) (hash : Bytes) (rows : List ChallengeRow)
    → any (spent hash) (drop_if (supersedes c) rows) ≡ any (spent hash) rows
spent-drop_if c hash [] = refl
spent-drop_if c hash (r ∷ rows) = elim (Bool-cases (supersedes c r)) [
  | inl e ↦
      let apart : spent hash r ≡ false = ground arith in rw (e, apart) (spent-drop_if c hash rows)
  | inr e ↦ rw (e, spent-drop_if c hash rows) refl
]

pub unspent-drop_if :
    (c : Challenge) (hash : Bytes) (rows : List ChallengeRow)
    → any (unspent hash) rows ≡ false
    → any (unspent hash) (drop_if (supersedes c) rows) ≡ false
unspent-drop_if c hash [] h = refl
unspent-drop_if c hash (r ∷ rows) h = elim (Bool-cases (unspent hash r)) [
  | inl u ↦ absurd (cc (rw u at h))
  | inr u ↦ elim (Bool-cases (supersedes c r)) [
    | inl e ↦ rw e (unspent-drop_if c hash rows (rw u at h))
    | inr e ↦ rw (e, u) (unspent-drop_if c hash rows (rw u at h))
  ]
]

pub spent-hashed :
    (hash : Bytes) (rows : List ChallengeRow)
    → any (spent hash) rows ≡ true
    → any (hashed hash) rows ≡ true
spent-hashed hash [] h = cc
spent-hashed hash (r ∷ rows) h = elim (Bool-cases (hashed hash r)) [
  | inl e ↦ rw e refl
  | inr e ↦ rw e (spent-hashed hash rows (rw e at h))
]

pub spent-consume :
    (p : ChallengeRow → Bool) (now : ℕ) (hash : Bytes) (rows : List ChallengeRow)
    → any (spent hash) rows ≡ true
    → any (spent hash) (map (consume_row p now) rows) ≡ true
spent-consume p now hash [] h = h
spent-consume p now hash (r ∷ rows) h = elim (Bool-cases (spent hash r)) [
  | inl s ↦ let stays : spent hash (consume_row p now r) ≡ true = ground arith in rw stays refl
  | inr s ↦ ground (arith, spent-consume p now hash rows (rw s at h))
]

pub unspent-consume :
    (p : ChallengeRow → Bool) (now : ℕ) (hash : Bytes) (rows : List ChallengeRow)
    → any (unspent hash) rows ≡ false
    → any (unspent hash) (map (consume_row p now) rows) ≡ false
unspent-consume p now hash [] h = h
unspent-consume p now hash (r ∷ rows) h = elim (Bool-cases (unspent hash r)) [
  | inl u ↦ absurd (cc (rw u at h))
  | inr u ↦
      let stays : unspent hash (consume_row p now r) ≡ false = ground arith in
      rw stays (unspent-consume p now hash rows (rw u at h))
]

pub unspent-find_challenge :
    (org now : ℕ) (hash address : Bytes) (rows : List ChallengeRow)
    → any (unspent hash) rows ≡ false
    → (find_challenge (is_live org hash now) rows ≡ none)
      × (find_challenge (is_claimable org hash address now) rows ≡ none)
unfolding find_challenge
unspent-find_challenge org now hash address [] h = (refl, refl)
unspent-find_challenge org now hash address (r ∷ rows) h = elim (Bool-cases (unspent hash r)) [
  | inl u ↦ absurd (cc (rw u at h))
  | inr u ↦
      let rest = unspent-find_challenge org now hash address rows (rw u at h) in
      let dead : is_live org hash now r ≡ false = ground arith in rw dead rest
]

pub no_other :
    (own hash : Bytes) (rows : List ChallengeRow)
    → All (λ b. bytes_eq own b.challenge.hash ≡ false) rows
    → bytes_eq own hash ≡ true
    → any (unspent hash) rows ≡ false
no_other own hash [] h same = refl
no_other own hash (b ∷ rows) (hb, h) same = elim (Bool-cases (hashed hash b)) [
  | inl e ↦
      let left = bytes_eq_sound own hash same in
      let right = bytes_eq_sound b.challenge.hash hash e in
      absurd (cc (rw (left, right, bytes_eq_refl hash) at hb))
  | inr e ↦ rw e (no_other own hash rows h same)
]

pub find_challenge_sound :
    (p : ChallengeRow → Bool) (rows : List ChallengeRow) {r : ChallengeRow}
    → find_challenge p rows ≡ some r
    → p r ≡ true
unfolding find_challenge
find_challenge_sound p [] h = cc
find_challenge_sound p (x ∷ rows) {r} h = elim (Bool-cases (p x)) [
  | inl e ↦ let same : x ≡ r = some-injective (rw e at h) in subst (λ y. p y ≡ true) same e
  | inr e ↦ find_challenge_sound p rows (rw e at h)
]

pub find_challenge-All :
    (P : ChallengeRow → Type 0) (p : ChallengeRow → Bool) (rows : List ChallengeRow)
    {r : ChallengeRow}
    → All P rows
    → find_challenge p rows ≡ some r
    → P r
unfolding find_challenge
find_challenge-All P p [] a h = cc
find_challenge-All P p (x ∷ rows) {r} (px, a) h = elim (Bool-cases (p x)) [
  | inl e ↦ let same : x ≡ r = some-injective (rw e at h) in subst P same px
  | inr e ↦ find_challenge-All P p rows a (rw e at h)
]

pub other_hash :
    (x r : ChallengeRow) (hash : Bytes) → Keyed x r → hashed hash r ≡ true → hashed hash x ≡ false
other_hash x r hash key named = elim (Bool-cases (hashed hash x)) [
  | inr e ↦ e
  | inl e ↦
      let left = bytes_eq_sound x.challenge.hash hash e in
      let right = bytes_eq_sound r.challenge.hash hash named in
      absurd (cc (rw (left, right, bytes_eq_refl hash) at key))
]

-- The rows with the hash, when the hash is a key and one of them is claimed.
pub spent-claim :
    (org now : ℕ) (hash address : Bytes) (rows : List ChallengeRow) (r : ChallengeRow)
    → Pairwise Keyed rows
    → find_challenge (is_claimable org hash address now) rows ≡ some r
    → (any (spent hash) (map (consume_row (is_claimable org hash address now) now) rows) ≡ true)
      × (any (unspent hash) (map (consume_row (is_claimable org hash address now) now) rows)
          ≡ false)
unfolding find_challenge
spent-claim org now hash address [] r keys found = cc
spent-claim org now hash address (x ∷ rows) r (kx, keys) found =
    elim (Bool-cases (is_claimable org hash address now x)) [
      | inl e ↦
          let named : hashed hash x ≡ true = ground arith in
          let others = no_other x.challenge.hash hash rows kx named in
          let dead = unspent-consume (is_claimable org hash address now) now hash rows others in
          rw (e, named) (refl, dead)
      | inr e ↦
          let (s, n) = spent-claim org now hash address rows r keys (rw e at found) in
          let holds =
            find_challenge_sound (is_claimable org hash address now) rows (rw e at found) in
          let key =
            find_challenge-All (Keyed x) (is_claimable org hash address now) rows kx
              (rw e at found) in
          let apart = other_hash x r hash key (ground arith) in rw (e, apart) (s, n)
    ]
