-- ===== src/Store/Members/Seen.antt =====
-- Somebody who speaks again is the same member.
use stelfin.Prelude.{
  Bool, ℕ, List, [], ◌∷◌, true, false, ◌&&◌, not, ok, map, ◌≡◌, inl, inr, refl, ap, arith,
  Bool-cases, sym, All, All-weaken, ◌<◌, ◌==◌, some, Option-cases, ok-injective, refuse_if-eq-ok,
  some-injective, subst, ◌∙◌,
}
use stelfin.Text.{Bytes, is_empty, bytes_eq}
use stelfin.Chat.{is_valid}
use stelfin.Store.Members.Speaks.{Speaks, Speaks-member, find_member_sound}
use stelfin.Store.Members.Steady.{Reach, Reach-Speaks}
use stelfin.Store.Members.{
  find_member, Error, Member, Identity, Directory, has_org, is_account, find_identity,
  member_by_identity, set_handle, keep_handle, create_member, ensure_member,
}

-- A new handle is all that changes of the account.
find_identity-set_handle :
    (org : ℕ) (channel user handle : Bytes) (is : List Identity) {i : Identity}
    → find_identity org channel user is ≡ some i
    → (j : Identity) × (find_identity org channel user (map (set_handle org channel user handle) is)
        ≡ some j)
      × (j.member ≡ i.member)
unfolding find_identity
find_identity-set_handle org channel user handle [] h = cc
find_identity-set_handle org channel user handle (x ∷ is) h =
    elim (Bool-cases (is_account org channel user x)) [
      | inl e ↦ (
        record x { handle = handle },
        rw (e, e) refl,
        ap (λ y. y.member) (some-injective (rw e at h)),
      )
      | inr e ↦
          let (j, found, same) = find_identity-set_handle org channel user handle is (rw e at h) in
          (j, rw (e, e) found, same)
    ]

keep_handle-member_by_identity :
    (d : Directory) (org : ℕ) (channel user handle : Bytes) {m : Member} (n : Member)
    → member_by_identity d org channel user ≡ some m
    → member_by_identity (keep_handle d org channel user handle n) org channel user ≡ some m
unfolding member_by_identity
keep_handle-member_by_identity d org channel user handle n h =
    elim (Bool-cases (not (bytes_eq n.display_name handle) && not (is_empty handle))) [
      | inr e ↦ rw e h
      | inl e ↦ elim (Option-cases (find_identity org channel user d.identities)) [
        | inl f ↦ absurd (cc (rw (member_by_identity, f) at h))
        | inr (i, f) ↦
            let (j, found, same) =
              find_identity-set_handle org channel user handle d.identities f in
            rw (e, member_by_identity, found, same, e) (rw (member_by_identity, f) at h)
      ]
    ]

keep_handle-members :
    (d : Directory) (org : ℕ) (channel user handle : Bytes) (m : Member)
    → (keep_handle d org channel user handle m).members ≡ d.members
keep_handle-members d org channel user handle m =
    elim (Bool-cases (not (bytes_eq m.display_name handle) && not (is_empty handle))) [
      | inl e ↦ rw e refl
      | inr e ↦ rw e refl
    ]

-- What EnsureMember has made sure of.
ensure_member-eq-ok :
    (d : Directory) (org : ℕ) (channel user handle : Bytes) {m : Member} {u : Directory}
    → ensure_member d org channel user handle ≡ ok (m, u)
    → (is_valid channel ≡ true)
      × (is_empty user ≡ false)
      × (member_by_identity u org channel user ≡ some m)
unfolding ensure_member
ensure_member-eq-ok d org channel user handle {m} {u} h =
    let (valid, a) = refuse_if-eq-ok (not (is_valid channel)) Error.unknown_channel _ h in
    let (named, b) = refuse_if-eq-ok (is_empty user) Error.user_id_required _ a in
    let speaks : Directory → Type 0 = λ v. member_by_identity v org channel user ≡ some m in
    elim (Option-cases (member_by_identity d org channel user)) [
      | inr (n, e) ↦
          let result = ok-injective (rw e at b) in
          let same : n ≡ m = ap (λ x. x.0) result in
          (
            ground arith,
            named,
            subst speaks (ap (λ x. x.1) result)
                (keep_handle-member_by_identity d org channel user handle n (e ∙ ap some same)),
          )
      | inl e ↦
          let (known, c) =
            refuse_if-eq-ok (not (has_org org d.orgs)) Error.database _ (rw e at b) in
          let made = create_member d org channel user handle in
          elim (Option-cases (member_by_identity made org channel user)) [
            | inl f ↦ absurd (cc (rw f at c))
            | inr (n, f) ↦
                let result = ok-injective (rw f at c) in
                let same : n ≡ m = ap (λ x. x.0) result in
                (ground arith, named, subst speaks (ap (λ x. x.1) result) (f ∙ ap some same))
          ]
    ]

-- Ids come from a sequence.
abbrev pub IsNumbered : Directory → Type 0
IsNumbered d = All (λ m. m.id < d.next_member) d.members

keep_handle-IsNumbered :
    (d : Directory) (org : ℕ) (channel user handle : Bytes) (m : Member)
    → IsNumbered d
    → IsNumbered (keep_handle d org channel user handle m)
keep_handle-IsNumbered d org channel user handle m v =
    elim (Bool-cases (not (bytes_eq m.display_name handle) && not (is_empty handle))) [
      | inl e ↦ rw e v
      | inr e ↦ rw e v
    ]

ensure_member-IsNumbered :
    (d : Directory) (org : ℕ) (channel user handle : Bytes) {m : Member} {u : Directory}
    → IsNumbered d
    → ensure_member d org channel user handle ≡ ok (m, u)
    → IsNumbered u
unfolding ensure_member create_member
ensure_member-IsNumbered d org channel user handle v h =
    let (_, a) = refuse_if-eq-ok (not (is_valid channel)) Error.unknown_channel _ h in
    let (_, b) = refuse_if-eq-ok (is_empty user) Error.user_id_required _ a in
    elim (Option-cases (member_by_identity d org channel user)) [
      | inr (n, e) ↦
          subst IsNumbered (ap (λ x. x.1) (ok-injective (rw e at b)))
            (keep_handle-IsNumbered d org channel user handle n v)
      | inl e ↦
          let (_, c) = refuse_if-eq-ok (not (has_org org d.orgs)) Error.database _ (rw e at b) in
          let made = create_member d org channel user handle in
          let grown : IsNumbered made =
            (omega arith, All-weaken d.members (λ m k. omega (arith, k)) v) in
          elim (Option-cases (member_by_identity made org channel user)) [
            | inl f ↦ absurd (cc (rw f at c))
            | inr (n, f) ↦ subst IsNumbered (ap (λ x. x.1) (ok-injective (rw f at c))) grown
          ]
    ]

find_member-below :
    (org id bound : ℕ) (ms : List Member) {m : Member}
    → All (λ m. m.id < bound) ms
    → find_member org id ms ≡ some m
    → m.id < bound
unfolding find_member
find_member-below org id bound [] v h = cc
find_member-below org id bound (x ∷ ms) (k, v) h = elim (Bool-cases (x.id == id && x.org == org)) [
  | inl e ↦ subst (λ y. y.id < bound) (some-injective (rw e at h)) k
  | inr e ↦ find_member-below org id bound ms v (rw e at h)
]

member_by_identity-Speaks :
    (d : Directory) (org : ℕ) (channel user : Bytes) {m : Member}
    → IsNumbered d
    → member_by_identity d org channel user ≡ some m
    → Speaks org channel user m.id d
unfolding member_by_identity
member_by_identity-Speaks d org channel user {m} v h =
    elim (Option-cases (find_identity org channel user d.identities)) [
      | inl f ↦ absurd (cc (rw (member_by_identity, f) at h))
      | inr (i, f) ↦
          let there : find_member org i.member d.members ≡ some m =
            rw (member_by_identity, f) at h in
          let (same, _) = find_member_sound org i.member d.members there in
          record {
            identity = i;
            found = f;
            speaks_for = sym same;
            who = m;
            present = subst (λ x. find_member org x d.members ≡ some m) (sym same) there;
            numbered = find_member-below org i.member d.next_member d.members v there;
          }
    ]

-- Whoever was seen once is the same member whenever they speak again, under whatever handle: whoever
-- else has been seen since, whatever addresses have been set, accounts linked and roles changed, as
-- long as nobody has claimed a link code, which moves an account. No member is added or changed by it.
-- The ids of the members are below the next one, as a sequence gives them out.
pub ensure_member-again :
    (is_address : Bytes → Bool) (d u v : Directory) (org : ℕ) (channel user handle handle' : Bytes)
    (m : Member)
    → IsNumbered d
    → ensure_member d org channel user handle ≡ ok (m, u)
    → Reach is_address u v
    → (m' : Member) × (w : Directory) × (ensure_member v org channel user handle' ≡ ok (m', w))
      × (m'.id ≡ m.id)
      × (m'.org ≡ org)
      × (w.members ≡ v.members)
unfolding ensure_member
ensure_member-again is_address d u v org channel user handle handle' m k h r =
    let (valid, named, speaks) = ensure_member-eq-ok d org channel user handle h in
    let numbered = ensure_member-IsNumbered d org channel user handle k h in
    let s =
      Reach-Speaks org channel user m.id
        (member_by_identity-Speaks u org channel user numbered speaks) r in
    let (same_id, same_org) = find_member_sound org m.id v.members s.present in
    (
      s.who,
      keep_handle v org channel user handle' s.who,
      rw (valid, named, Speaks-member org channel user m.id v s) refl,
      same_id,
      same_org,
      keep_handle-members v org channel user handle' s.who,
    )
