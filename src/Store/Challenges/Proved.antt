-- ===== src/Store/Challenges/Proved.antt =====
-- What a claim that succeeds has proved.
use stelfin.Prelude.{
  ℕ, List, [], ◌∷◌, Bool, true, false, ◌&&◌, ◌==◌, Result, ok, err, any, map, ◌≡◌, inl, inr, refl,
  sym, ap, ◌∙◌, arith, Bool-cases, some, Option-cases, Pairwise, subst, ok-injective, >>=-eq-ok,
}
use stelfin.Text.{Bytes}
use stelfin.Text.Equality.{bytes_eq_sound}
use stelfin.Store.Members.{
  Member, Directory, has_member, find_member, bind_address, with_address, takes,
}
use stelfin.Store.Members
use stelfin.Store.Challenges.{
  Checks, Challenge, ChallengeRow, Linking, live_challenge, consume_challenge, is_live,
  is_claimable, find_challenge, bind_claimed, member_of, lift_error,
}
use stelfin.Store.Challenges.Rows.{Keyed, find_challenge_sound, find_challenge-All, other_hash}
use stelfin.Store.Challenges.Spent.{consume_challenge-eq-ok}

-- The row that is claimed is the live one.
live-claim :
    (org now : ℕ) (hash address : Bytes) (rows : List ChallengeRow) {r : ChallengeRow}
    → Pairwise Keyed rows
    → find_challenge (is_claimable org hash address now) rows ≡ some r
    → find_challenge (is_live org hash now) rows ≡ some r
unfolding find_challenge
live-claim org now hash address [] keys h = cc
live-claim org now hash address (x ∷ rows) {r} (kx, keys) h =
    elim (Bool-cases (is_claimable org hash address now x)) [
      | inl e ↦ let live : is_live org hash now x ≡ true = ground arith in rw live (rw e at h)
      | inr e ↦
          let rest = live-claim org now hash address rows keys (rw e at h) in
          let holds = find_challenge_sound (is_live org hash now) rows rest in
          let key = find_challenge-All (Keyed x) (is_live org hash now) rows kx rest in
          let apart = other_hash x r hash key (ground arith) in rw apart rest
    ]

address-bound :
    (org id : ℕ) (address source : Bytes) (now : ℕ) (ms : List Member)
    → has_member org id ms ≡ true
    → (m : Member) × (find_member org id (map (with_address org id address source now) ms) ≡ some m)
      × (m.address ≡ address)
unfolding find_member
address-bound org id address source now [] h = cc
address-bound org id address source now (m ∷ ms) h =
    elim (Bool-cases (m.id == id && m.org == org)) [
      | inl e ↦
          let bound = record m { address = address; address_source = source; verified_at = now } in
          (bound, rw (e, e) refl, refl)
      | inr e ↦
          let (n, found, bound) = address-bound org id address source now ms (rw e at h) in
          (n, rw (e, e) found, bound)
    ]

bind_address-eq-ok :
    (is_address : Bytes → Bool) (d : Directory) (org id : ℕ) (address source : Bytes) (now : ℕ)
    {u : Directory}
    → bind_address is_address d org id address source now ≡ ok u
    → (has_member org id d.members ≡ true)
      × (any (takes org id address) d.members ≡ false)
      × (u ≡ record d { members = map (with_address org id address source now) d.members })
unfolding bind_address
bind_address-eq-ok is_address d org id address source now h =
    elim (Bool-cases (has_member org id d.members)) [
      | inr e ↦ absurd (cc (rw e at h))
      | inl e ↦ elim (Bool-cases (is_address address)) [
        | inr f ↦ absurd (cc (rw (e, f) at h))
        | inl f ↦ elim (Bool-cases (any (takes org id address) d.members)) [
          | inl g ↦ absurd (cc (rw (e, f, g) at h))
          | inr g ↦ (e, g, sym (ok-injective (rw (e, f, g) at h)))
        ]
      ]
    ]

lift_error-eq-ok :
    (r : Result Members.Error Directory) {d : Directory} → lift_error r ≡ ok d → r ≡ ok d
lift_error-eq-ok (ok a) h = ap ok (ok-injective h)
lift_error-eq-ok (err e) h = cc

bind_claimed-eq-ok :
    (k : Checks) (t : Linking) (org : ℕ) (r : ChallengeRow) (address source : Bytes) (now id : ℕ)
    {d : Directory}
    → bind_claimed k t org r address source now ≡ ok (id, d)
    → (member_of org r.challenge.identity t.directory.identities ≡ some id)
      × (bind_address k.is_address t.directory org id address source now ≡ ok d)
unfolding bind_claimed
bind_claimed-eq-ok k t org r address source now id {d} h =
    elim (Option-cases (member_of org r.challenge.identity t.directory.identities)) [
      | inl e ↦ absurd (cc (rw (bind_claimed, e) at h))
      | inr (m, e) ↦
          let bind = bind_address k.is_address t.directory org m address source now in
          let (u, bound, made) = >>=-eq-ok (lift_error bind) _ (rw (bind_claimed, e) at h) in
          let result = ok-injective made in
          let same : m ≡ id = ap (λ x. x.0) result in
          let written : bind ≡ ok u = lift_error-eq-ok bind bound in
          (
            e ∙ ap some same,
            subst (λ i. bind_address k.is_address t.directory org i address source now ≡ ok d) same
                (written ∙ ap (λ x. ok x.1) result),
          )
    ]

-- Where hashes are unique, a claim that succeeds was of a challenge that was live in the org and made
-- for the same address; the member is the one that the challenged identity speaks for, no other member
-- of the org had the address, and the member has it from then on.
pub claimed_proved :
    (k : Checks) (t u : Linking) (org : ℕ) (hash address source : Bytes) (now id : ℕ)
    → Pairwise Keyed t.challenges
    → consume_challenge k t org hash address source now ≡ ok (id, u)
    → (c : Challenge) × (m : Member) × (live_challenge t org hash now ≡ ok c)
      × (c.address ≡ address)
      × (member_of org c.identity t.directory.identities ≡ some id)
      × (any (takes org id address) t.directory.members ≡ false)
      × (find_member org id u.directory.members ≡ some m)
      × (m.address ≡ address)
unfolding live_challenge
claimed_proved k t u org hash address source now id keys claimed =
    let (r, found, bound, rows) =
      consume_challenge-eq-ok k t org hash address source now id claimed in
    let holds = find_challenge_sound (is_claimable org hash address now) t.challenges found in
    let live = live-claim org now hash address t.challenges keys found in
    let (speaks, written) = bind_claimed-eq-ok k t org r address source now id bound in
    let (here, free, made) =
      bind_address-eq-ok k.is_address t.directory org id address source now written in
    let (m, member, has) = address-bound org id address source now t.directory.members here in
    (
      r.challenge,
      m,
      rw (live_challenge, live) refl,
      bytes_eq_sound r.challenge.address address (ground arith),
      speaks,
      free,
      subst (λ d. find_member org id d.members ≡ some m) (sym made) member,
      has,
    )
