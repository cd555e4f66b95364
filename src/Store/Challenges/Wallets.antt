-- ===== src/Store/Challenges/Wallets.antt =====
-- A link code moves a chat account, and no wallet.
use stelfin.Prelude.{
  ℕ, List, [], ◌∷◌, Bool, true, ◌||◌, not, ◌==◌, ok, any, map, ◌≡◌, ◌⊎◌, inl, inr, refl, ap, arith,
  Bool-cases, none, some, Option-cases, ok-injective, >>=-eq-ok, ==_iff, subst,
}
use stelfin.Text.Equality.{is_empty_sound}
use stelfin.Text.{Bytes, is_empty}
use stelfin.Chat.{is_valid}
use stelfin.Store.Members.{Member, Identity, Directory, find_identity}
use stelfin.Store.Members.Roles.{drop_if}
use stelfin.Store.Challenges.{Linking, Checks, CodeRow}
use stelfin.Store.Challenges.Codes.{
  claim_link_code, point_at, delete_empty_member, is_husk, moved, find_code, is_live_code, spend,
  wallet_of,
}

abbrev pub without_wallet : Member → Bool
without_wallet m = is_empty m.address

-- The members who have proved an address, with the address.
abbrev pub linked : Directory → List Member
linked d = drop_if without_wallet d.members

drop_if-husks :
    (p : Member → Bool) (ms : List Member)
    → ((m : Member) → p m ≡ true → without_wallet m ≡ true)
    → drop_if without_wallet (drop_if p ms) ≡ drop_if without_wallet ms
drop_if-husks p [] h = refl
drop_if-husks p (m ∷ ms) h = elim (Bool-cases (p m)) [
  | inl e ↦ rw (e, h m e) (drop_if-husks p ms h)
  | inr e ↦ rw (e, drop_if-husks p ms h) refl
]

-- What a change of the tables keeps.
pub record Keeps (t u : Linking) : Type 0 where
  pub wallets : linked u.directory ≡ linked t.directory
  pub roles : u.directory.roles ≡ t.directory.roles

delete_empty_member-Keeps :
    (k : Checks) (t : Linking) (org id : ℕ) {u : Linking}
    → delete_empty_member k t org id ≡ ok u
    → Keeps t u
unfolding delete_empty_member
delete_empty_member-Keeps k t org id h =
    elim (Bool-cases (any (is_husk org id t.directory) t.directory.members)) [
      | inr e ↦
          subst (Keeps t) (ok-injective (rw (delete_empty_member, e) at h))
            (record { wallets = refl; roles = refl })
      | inl e ↦ elim (Bool-cases (k.is_referenced id)) [
        | inl f ↦ absurd (cc (rw (delete_empty_member, e, f) at h))
        | inr f ↦ subst (Keeps t) (ok-injective (rw (delete_empty_member, e, f) at h)) (record {
          wallets =
              drop_if-husks (is_husk org id t.directory) t.directory.members
                (λ m husk. ground arith);
          roles = refl;
        })
      ]
    ]

-- The account was new, spoke for the member of the code already, or for one without a wallet.
abbrev pub WasFree : Linking → ℕ → Bytes → Bytes → ℕ → Type 0
WasFree t org channel user target =
    (find_identity org channel user t.directory.identities ≡ none)
    ⊎ ((i : Identity) × (find_identity org channel user t.directory.identities ≡ some i)
        × ((i.member ≡ target) ⊎ (wallet_of t org i.member ≡ [])))

point_at-Keeps :
    (k : Checks) (t : Linking) (org : ℕ) (channel user handle : Bytes) (c : CodeRow) {u : Linking}
    → point_at k t org channel user handle c ≡ ok u
    → Keeps t u × WasFree t org channel user c.member
unfolding point_at
point_at-Keeps k t org channel user handle c h =
    elim (Option-cases (find_identity org channel user t.directory.identities)) [
      | inl e ↦ elim (Bool-cases (is_empty user || not (is_valid channel))) [
        | inl f ↦ absurd (cc (rw (point_at, e, f) at h))
        | inr f ↦ (
          subst (Keeps t) (ok-injective (rw (point_at, e, f) at h))
              (record { wallets = refl; roles = refl }),
          inl e,
        )
      ]
      | inr (i, e) ↦ elim (Bool-cases (i.member == c.member)) [
        | inl f ↦ (
          subst (Keeps t) (ok-injective (rw (point_at, e, f) at h))
              (record { wallets = refl; roles = refl }),
          inr (i, e, inl ((==_iff i.member c.member).0 f)),
        )
        | inr f ↦ elim (Bool-cases (is_empty (wallet_of t org i.member))) [
          | inr g ↦ absurd (cc (rw (point_at, e, f, g) at h))
          | inl g ↦
              let kept =
                delete_empty_member-Keeps k (moved t handle c i) org i.member
                  (rw (point_at, e, f, g) at h) in
              (
                record { wallets = kept.wallets; roles = kept.roles },
                inr (i, e, inr (is_empty_sound (wallet_of t org i.member) g)),
              )
        ]
      ]
    ]

-- A link code that is claimed moves nobody's wallet: the members with an address, and their addresses,
-- are the same afterwards, and so are all roles. The account that claimed it was new, or spoke for the
-- member of the code already, or for a member without an address.
pub claim_link_code-Keeps :
    (k : Checks) (t u : Linking) (org : ℕ) (code channel user handle : Bytes) (now target : ℕ)
    → claim_link_code k t org code channel user handle now ≡ ok (target, u)
    → (linked u.directory ≡ linked t.directory)
      × (u.directory.roles ≡ t.directory.roles)
      × WasFree t org channel user target
unfolding claim_link_code wallet_of
claim_link_code-Keeps k t u org code channel user handle now target h =
    let p = is_live_code org code now in
    elim (Option-cases (find_code p t.codes)) [
      | inl e ↦ absurd (cc (rw (claim_link_code, e) at h))
      | inr (c, e) ↦
          let spent : Linking = record t { codes = map (spend p now) t.codes } in
          let pointed = point_at k spent org channel user handle c in
          let (v, run, made) = >>=-eq-ok pointed _ (rw (claim_link_code, e) at h) in
          let result = ok-injective made in
          let (kept, free) = point_at-Keeps k spent org channel user handle c run in
          let same : c.member ≡ target = ap (λ x. x.0) result in
          let tables : v.directory ≡ u.directory = ap (λ x. x.1.directory) result in
          (
            subst (λ d. linked d ≡ linked t.directory) tables kept.wallets,
            subst (λ d. d.roles ≡ t.directory.roles) tables kept.roles,
            subst (WasFree t org channel user) same free,
          )
    ]
