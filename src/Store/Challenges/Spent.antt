-- ===== src/Store/Challenges/Spent.antt =====
-- A challenge is spent once.
use stelfin.Prelude.{
  ℕ, Bool, true, false, ◌&&◌, not, ltb, ok, err, any, map, ◌≡◌, inl, inr, refl, sym, ap, ◌∙◌,
  Bool-cases, some, Option-cases, Pairwise, refuse_if-eq-ok, ok-injective, >>=-eq-ok, subst,
}
use stelfin.Text.{Bytes, bytes_eq}
use stelfin.Text.Equality.{bytes_eq_sound}
use stelfin.Store.Members.{is_source, has_org}
use stelfin.Store.Members.Roles.{drop_if}
use stelfin.Store.Challenges.{
  Error, Checks, Challenge, ChallengeRow, Linking, save_challenge, live_challenge,
  consume_challenge, supersedes, is_claimable, find_challenge, consume_row, bind_claimed,
  has_identity,
}
use stelfin.Store.Challenges.Rows.{
  Keyed, spent, unspent, spent-drop_if, unspent-drop_if, spent-hashed, spent-consume,
  unspent-consume, unspent-find_challenge, spent-claim,
}

-- A call by anybody at any time, in the order in which the database commits them.
pub data Step (k : Checks) (t : Linking) : Linking → Type 0 where
  saved : {u : Linking} (c : Challenge) (now : ℕ) → save_challenge k t c now ≡ ok u → Step k t u
  consumed :
      {u : Linking} (org : ℕ) (hash address source : Bytes) (now id : ℕ)
      → consume_challenge k t org hash address source now ≡ ok (id, u)
      → Step k t u
  -- Any other change: of members, of codes, or that treasury.go and connector.go consume rows.
  elsewhere :
      (u : Linking) (p : ChallengeRow → Bool) (now : ℕ)
      → u.challenges ≡ map (consume_row p now) t.challenges
      → Step k t u

pub data Reach (k : Checks) (t : Linking) : Linking → Type 0 where
  here : Reach k t t
  next : {u v : Linking} → Reach k t u → Step k u v → Reach k t v

-- A challenge that was consumed: its row is there, and no other with the hash is live.
abbrev pub IsSpent : Bytes → Linking → Type 0
IsSpent hash t = (any (spent hash) t.challenges ≡ true) × (any (unspent hash) t.challenges ≡ false)

save_challenge-IsSpent :
    (k : Checks) (t : Linking) (c : Challenge) (now : ℕ) (hash : Bytes) {u : Linking}
    → IsSpent hash t
    → save_challenge k t c now ≡ ok u
    → IsSpent hash u
unfolding save_challenge
save_challenge-IsSpent k t c now hash (was_spent, none_live) h =
    let rows = drop_if (supersedes c) t.challenges in
    let kept = spent-drop_if c hash t.challenges ∙ was_spent in
    let dead = unspent-drop_if c hash t.challenges none_live in
    let (allowed, a) =
      refuse_if-eq-ok (not (k.is_challenge c && ltb now c.expires_at)) Error.database _ h in
    let (fresh, b) =
      refuse_if-eq-ok (any (λ r. bytes_eq r.challenge.hash c.hash) rows) Error.database _ a in
    let (known, e) = refuse_if-eq-ok (not (has_org c.org t.directory.orgs)) Error.database _ b in
    let (named, made) =
      refuse_if-eq-ok (not (has_identity c.identity t.directory.identities)) Error.database _ e in
    elim (Bool-cases (bytes_eq c.hash hash)) [
      | inl same ↦
          let equal = bytes_eq_sound c.hash hash same in
          absurd (cc (rw (equal, spent-hashed hash rows kept) at fresh))
      | inr other ↦ subst (IsSpent hash) (ok-injective made) (rw other (kept, dead))
    ]

-- What a claim that succeeds has done to the rows.
pub consume_challenge-eq-ok :
    (k : Checks) (t : Linking) (org : ℕ) (hash address source : Bytes) (now id : ℕ) {u : Linking}
    → consume_challenge k t org hash address source now ≡ ok (id, u)
    → (r : ChallengeRow) × (find_challenge (is_claimable org hash address now) t.challenges
        ≡ some r)
      × (bind_claimed k t org r address source now ≡ ok (id, u.directory))
      × (u.challenges ≡ map (consume_row (is_claimable org hash address now) now) t.challenges)
unfolding consume_challenge
consume_challenge-eq-ok k t org hash address source now id h =
    let (sourced, a) = refuse_if-eq-ok (not (is_source source)) Error.unknown_source _ h in
    elim (Option-cases (find_challenge (is_claimable org hash address now) t.challenges)) [
      | inl e ↦ absurd (cc (rw e at a))
      | inr (r, e) ↦
          let (bound, claimed, made) =
            >>=-eq-ok (bind_claimed k t org r address source now) _ (rw e at a) in
          let result = ok-injective made in
          (
            r,
            e,
            claimed ∙ ap (λ x. ok (x.0, x.1.directory)) result,
            sym (ap (λ x. x.1.challenges) result),
          )
    ]

consume_challenge-IsSpent :
    (k : Checks) (t : Linking) (org : ℕ) (hash address source other : Bytes) (now id : ℕ)
    {u : Linking}
    → IsSpent other t
    → consume_challenge k t org hash address source now ≡ ok (id, u)
    → IsSpent other u
consume_challenge-IsSpent k t org hash address source other now id (was_spent, none_live) h =
    let (r, found, bound, rows) = consume_challenge-eq-ok k t org hash address source now id h in
    let p = is_claimable org hash address now in
    rw rows (
      spent-consume p now other t.challenges was_spent,
      unspent-consume p now other t.challenges none_live,
    )

Step-IsSpent :
    (k : Checks) (hash : Bytes) {t u : Linking} → IsSpent hash t → Step k t u → IsSpent hash u
Step-IsSpent k hash {t} h (saved c now s) = save_challenge-IsSpent k t c now hash h s
Step-IsSpent k hash {t} h (consumed org own address source now id s) =
    consume_challenge-IsSpent k t org own address source hash now id h s
Step-IsSpent k hash {t} (was_spent, none_live) (elsewhere u p now same) = rw same (
  spent-consume p now hash t.challenges was_spent,
  unspent-consume p now hash t.challenges none_live,
)

Reach-IsSpent :
    (k : Checks) (hash : Bytes) {t u : Linking} → IsSpent hash t → Reach k t u → IsSpent hash u
Reach-IsSpent k hash spent_before here = spent_before
Reach-IsSpent k hash spent_before (next r s) =
    Step-IsSpent k hash (Reach-IsSpent k hash spent_before r) s

-- Where hashes are unique, a challenge that is claimed is spent for good: after any calls whatsoever,
-- at any time and for any org, address and source that is known, it is no longer live, and claiming it
-- again is answered with ErrNoChallenge.
pub claimed_once :
    (k : Checks) (t u v : Linking) (org org' : ℕ) (hash address address' source source' : Bytes)
    (now now' id : ℕ)
    → Pairwise Keyed t.challenges
    → consume_challenge k t org hash address source now ≡ ok (id, u)
    → Reach k u v
    → is_source source' ≡ true
    → (live_challenge v org' hash now' ≡ err Error.no_challenge)
      × (consume_challenge k v org' hash address' source' now' ≡ err Error.no_challenge)
unfolding live_challenge consume_challenge
claimed_once k t u v org org' hash address address' source source' now now' id keys claimed later
      sourced =
    let (r, found, bound, rows) =
      consume_challenge-eq-ok k t org hash address source now id claimed in
    let first : IsSpent hash u =
      rw rows (spent-claim org now hash address t.challenges r keys found) in
    let (was_spent, dead) = Reach-IsSpent k hash first later in
    let (unlive, unclaimable) = unspent-find_challenge org' now' hash address' v.challenges dead in
    (rw (live_challenge, unlive) refl, rw (sourced, unclaimable) refl)
