-- ===== src/Store/Members/Speaks.antt =====
-- A chat account that speaks for a member, and what each operation on members leaves of that.
use stelfin.Prelude.{
  ℕ, ◌<◌, List, [], ◌∷◌, Bool, true, false, ◌&&◌, not, if◌then◌else◌, ◌==◌, ok, map, any, ◌≡◌, inl,
  inr, refl, sym, ap, arith, Bool-cases, some, Option-cases, ok-injective, refuse_if-eq-ok,
  some-injective, subst, ◌∙◌,
}
use stelfin.Text.{Bytes, is_empty, bytes_eq}
use stelfin.Text.Equality.{bytes_eq_sound}
use stelfin.Chat.{is_valid}
use stelfin.Store.Members.{
  Error, Member, Identity, Directory, has_org, has_member, is_account, is_source, takes,
  find_identity, find_member, member_by_identity, set_handle, keep_handle, create_member,
  ensure_member, bind_address, with_address, set_member_address, link_identity,
}

-- The account speaks for the member.
pub record Speaks (org : ℕ) (channel user : Bytes) (id : ℕ) (d : Directory) : Type 0 where
  pub identity : Identity
  pub found : find_identity org channel user d.identities ≡ some identity
  pub speaks_for : identity.member ≡ id
  pub who : Member
  pub present : find_member org id d.members ≡ some who
  pub numbered : id < d.next_member

pub find_member_sound :
    (org id : ℕ) (ms : List Member) {m : Member}
    → find_member org id ms ≡ some m
    → (m.id ≡ id) × (m.org ≡ org)
unfolding find_member
find_member_sound org id [] h = cc
find_member_sound org id (x ∷ ms) {m} h = elim (Bool-cases (x.id == id && x.org == org)) [
  | inl e ↦
      subst (λ y. (y.id ≡ id) × (y.org ≡ org)) (some-injective (rw e at h))
        (ground arith, ground arith)
  | inr e ↦ find_member_sound org id ms (rw e at h)
]

-- A new address leaves the member found.
find_member-with_address :
    (org id org' id' : ℕ) (address source : Bytes) (now : ℕ) (ms : List Member) {m : Member}
    → find_member org id ms ≡ some m
    → (n : Member) × (find_member org id (map (with_address org' id' address source now) ms)
        ≡ some n)
unfolding find_member
find_member-with_address org id org' id' address source now [] h = cc
find_member-with_address org id org' id' address source now (x ∷ ms) h =
    let y = with_address org' id' address source now x in
    let (same_id, same_org) = kept (x.id == id' && x.org == org') in
    elim (Bool-cases (x.id == id && x.org == org)) [
      | inl e ↦ (y, rw (same_id, same_org, e) refl)
      | inr e ↦
          let (n, f) = find_member-with_address org id org' id' address source now ms (rw e at h) in
          (n, rw (same_id, same_org, e) f)
    ]
  where
    kept :
        (b : Bool)
        → let y : Member =
            if b
            then record x { address = address; address_source = source; verified_at = now }
            else x in
          (y.id ≡ x.id) × (y.org ≡ x.org)
    kept true = (refl, refl)
    kept false = (refl, refl)

-- A new handle, of whatever account, leaves the identity found.
find_identity-handled :
    (org : ℕ) (channel user : Bytes) (org' : ℕ) (channel' user' handle : Bytes) (is : List Identity)
    {i : Identity}
    → find_identity org channel user is ≡ some i
    → (j : Identity) × (find_identity org channel user
          (map (set_handle org' channel' user' handle) is)
        ≡ some j)
      × (j.member ≡ i.member)
unfolding find_identity
find_identity-handled org channel user org' channel' user' handle [] h = cc
find_identity-handled org channel user org' channel' user' handle (x ∷ is) {i} h =
    let y = set_handle org' channel' user' handle x in
    let (same, member) = kept (is_account org' channel' user' x) in
    elim (Bool-cases (is_account org channel user x)) [
      | inl e ↦ (y, rw (same, e) refl, member ∙ ap (λ z. z.member) (some-injective (rw e at h)))
      | inr e ↦
          let (j, f, k) =
            find_identity-handled org channel user org' channel' user' handle is (rw e at h) in
          (j, rw (same, e) f, k)
    ]
  where
    kept :
        (b : Bool)
        → let y : Identity = if b then record x { handle = handle } else x in
          (is_account org channel user y ≡ is_account org channel user x) × (y.member ≡ x.member)
    kept true = (refl, refl)
    kept false = (refl, refl)

find_identity-any :
    (org : ℕ) (channel user : Bytes) (is : List Identity) {i : Identity}
    → find_identity org channel user is ≡ some i
    → any (is_account org channel user) is ≡ true
unfolding find_identity
find_identity-any org channel user [] h = cc
find_identity-any org channel user (x ∷ is) h = elim (Bool-cases (is_account org channel user x)) [
  | inl e ↦ rw e refl
  | inr e ↦ rw (e, find_identity-any org channel user is (rw e at h)) refl
]

-- Bare facts on the tables that the operations of roles leave.
abbrev pub Untouched : Directory → Directory → Type 0
Untouched d u =
    (u.members ≡ d.members) × (u.identities ≡ d.identities) × (u.next_member ≡ d.next_member)

pub Untouched-Speaks :
    (org : ℕ) (channel user : Bytes) (id : ℕ) (d u : Directory)
    → Untouched d u
    → Speaks org channel user id d
    → Speaks org channel user id u
Untouched-Speaks org channel user id d u (ms, is, n) s = record {
  identity = s.identity;
  found = subst (λ x. find_identity org channel user x ≡ some s.identity) (sym is) s.found;
  speaks_for = s.speaks_for;
  who = s.who;
  present = subst (λ x. find_member org id x ≡ some s.who) (sym ms) s.present;
  numbered = omega (arith, n, s.numbered);
}

pub Speaks-member :
    (org : ℕ) (channel user : Bytes) (id : ℕ) (d : Directory) (s : Speaks org channel user id d)
    → member_by_identity d org channel user ≡ some s.who
unfolding member_by_identity
Speaks-member org channel user id d s = rw (s.found, member_by_identity, s.speaks_for) s.present

keep_handle-Speaks :
    (org : ℕ) (channel user : Bytes) (id : ℕ) (d : Directory) (org' : ℕ)
    (channel' user' handle : Bytes) (m : Member)
    → Speaks org channel user id d
    → Speaks org channel user id (keep_handle d org' channel' user' handle m)
keep_handle-Speaks org channel user id d org' channel' user' handle m s =
    elim (Bool-cases (not (bytes_eq m.display_name handle) && not (is_empty handle))) [
      | inr e ↦ rw e s
      | inl e ↦
          let (j, f, k) =
            find_identity-handled org channel user org' channel' user' handle d.identities
              s.found in
          rw e (record {
            identity = j;
            found = f;
            speaks_for = k ∙ s.speaks_for;
            who = s.who;
            present = s.present;
            numbered = s.numbered;
          })
    ]

later_id : (n id : ℕ) → id < n → (n == id) ≡ false
later_id n id h = ground arith

true≢false : ◌≡◌ {A = Bool} true false → ⊥
true≢false e = cc

-- Two accounts that are one.
account-eq :
    (org : ℕ) (channel user : Bytes) (i : Identity)
    → is_account org channel user i ≡ true
    → (i.org ≡ org) × (i.channel ≡ channel) × (i.channel_user_id ≡ user)
account-eq org channel user i h = (
  ground arith,
  bytes_eq_sound i.channel channel (ground arith),
  bytes_eq_sound i.channel_user_id user (ground arith),
)

-- A row of an account that is not there is of another account.
find_identity-cons :
    (org : ℕ) (channel user : Bytes) (x : Identity) (is : List Identity) {i : Identity}
    → find_identity org channel user is ≡ some i
    → any (is_account x.org x.channel x.channel_user_id) is ≡ false
    → find_identity org channel user (x ∷ is) ≡ some i
unfolding find_identity
find_identity-cons org channel user x is h free =
    elim (Bool-cases (is_account org channel user x)) [
      | inr e ↦ rw e h
      | inl e ↦
          let (a, b, c) = account-eq org channel user x e in
          absurd
            (true≢false (sym (find_identity-any org channel user is h) ∙ (rw (a, b, c) at free)))
    ]

create_member-Speaks :
    (org : ℕ) (channel user : Bytes) (id : ℕ) (d : Directory) (org' : ℕ)
    (channel' user' handle : Bytes)
    → Speaks org channel user id d
    → Speaks org channel user id (create_member d org' channel' user' handle)
unfolding create_member
create_member-Speaks org channel user id d org' channel' user' handle s = record {
  identity = s.identity;
  found = elim (Bool-cases (any (is_account org' channel' user') d.identities)) [
    | inl e ↦ rw e s.found
    | inr e ↦ rw e (find_identity-cons org channel user _ d.identities s.found e)
  ];
  speaks_for = s.speaks_for;
  who = s.who;
  present = unfold find_member in rw (later_id d.next_member id s.numbered) s.present;
  numbered = omega (arith, s.numbered);
}

pub addressed-Speaks :
    (is_address : Bytes → Bool) (org : ℕ) (channel user : Bytes) (id : ℕ) (d : Directory)
    (org' id' : ℕ) (address source : Bytes) (now : ℕ) {u : Directory}
    → set_member_address is_address d org' id' address source now ≡ ok u
    → Speaks org channel user id d
    → Speaks org channel user id u
unfolding set_member_address bind_address
addressed-Speaks is_address org channel user id d org' id' address source now h s =
    let (_, a) = refuse_if-eq-ok (not (is_source source)) Error.unknown_source _ h in
    let (n, f) = find_member-with_address org id org' id' address source now d.members s.present in
    elim (Bool-cases (not (has_member org' id' d.members))) [
      | inl e ↦ absurd (cc (rw e at a))
      | inr e ↦ elim (Bool-cases (not (is_address address))) [
        | inl k ↦ absurd (cc (rw (e, k) at a))
        | inr k ↦ elim (Bool-cases (any (takes org' id' address) d.members)) [
          | inl t ↦ absurd (cc (rw (e, k, t) at a))
          | inr t ↦ subst (Speaks org channel user id) (ok-injective (rw (e, k, t) at a)) (record {
            identity = s.identity;
            found = s.found;
            speaks_for = s.speaks_for;
            who = n;
            present = f;
            numbered = s.numbered;
          })
        ]
      ]
    ]

pub linked-Speaks :
    (org : ℕ) (channel user : Bytes) (id : ℕ) (d : Directory) (org' id' : ℕ)
    (channel' user' handle : Bytes) (by : ℕ) {u : Directory}
    → link_identity d org' id' channel' user' handle by ≡ ok u
    → Speaks org channel user id d
    → Speaks org channel user id u
unfolding link_identity
linked-Speaks org channel user id d org' id' channel' user' handle by h s =
    let (_, a) = refuse_if-eq-ok (not (is_valid channel')) Error.unknown_channel _ h in
    let (_, b) = refuse_if-eq-ok (is_empty user') Error.database _ a in
    let (free, c) =
      refuse_if-eq-ok (any (is_account org' channel' user') d.identities) Error.already_speaks _
        b in
    let (_, made) = refuse_if-eq-ok (not (has_member org' id' d.members)) Error.database _ c in
    subst (Speaks org channel user id) (ok-injective made) (record {
      identity = s.identity;
      found = find_identity-cons org channel user _ d.identities s.found free;
      speaks_for = s.speaks_for;
      who = s.who;
      present = s.present;
      numbered = s.numbered;
    })

pub seen-Speaks :
    (org : ℕ) (channel user : Bytes) (id : ℕ) (d : Directory) (org' : ℕ)
    (channel' user' handle : Bytes) {m : Member} {u : Directory}
    → ensure_member d org' channel' user' handle ≡ ok (m, u)
    → Speaks org channel user id d
    → Speaks org channel user id u
unfolding ensure_member
seen-Speaks org channel user id d org' channel' user' handle h s =
    let (_, a) = refuse_if-eq-ok (not (is_valid channel')) Error.unknown_channel _ h in
    let (_, b) = refuse_if-eq-ok (is_empty user') Error.user_id_required _ a in
    let still = Speaks org channel user id in
    elim (Option-cases (member_by_identity d org' channel' user')) [
      | inr (n, e) ↦
          subst still (ap (λ x. x.1) (ok-injective (rw e at b)))
            (keep_handle-Speaks org channel user id d org' channel' user' handle n s)
      | inl e ↦
          let (_, c) = refuse_if-eq-ok (not (has_org org' d.orgs)) Error.database _ (rw e at b) in
          let made = create_member d org' channel' user' handle in
          elim (Option-cases (member_by_identity made org' channel' user')) [
            | inl f ↦ absurd (cc (rw f at c))
            | inr (n, f) ↦
                subst still (ap (λ x. x.1) (ok-injective (rw f at c)))
                  (create_member-Speaks org channel user id d org' channel' user' handle s)
          ]
    ]
