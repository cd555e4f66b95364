-- ===== src/Connector/Guard/Surface.antt =====
-- What the hash of a surface is taken of: two descriptors give the same bytes exactly when they have
-- the same id and kind and the same capabilities, in any order.
use mathlib.Core.List.{Perm, Permᴰ}
use mathlib.Core.List.Perm
use mathlib.Core.Path.{ap₂}
use native.Mathlib.Nat.{ℕ_set}
use mathlib.Core.Logic.{∥∥₁_elim}
use stelfin.Prelude.{
  ℕ, suc, List, [], ◌∷◌, ◌++◌, true, false, ◌≡◌, ◌≢◌, ◌↔◌, inl, inr, refl, sym, ap, ◌∙◌, subst,
  arith, Bool-cases, All, length, append-injective, append_assoc,
}
use stelfin.Text.{Bytes, codes, cut, IsDigit, value, format_uint}
use stelfin.Text.Decimal.{cut-append, value-format_uint, format_uint-IsDigit}
use stelfin.Connector.Guard.{
  Descriptor, kind_text, string_le, insert, sort, write, write_all, surface,
}

string_le_refl : (a : Bytes) → string_le a a ≡ true
unfolding string_le
string_le_refl [] = refl
string_le_refl (x ∷ a) = ground (arith, string_le_refl a)

string_le_total : (a b : Bytes) → string_le a b ≡ false → string_le b a ≡ true
unfolding string_le
string_le_total [] b h = cc
string_le_total (x ∷ a) [] h = refl
string_le_total (x ∷ a) (y ∷ b) h = ground (arith, string_le_total a b)

string_le_antisym : (a b : Bytes) → string_le a b ≡ true → string_le b a ≡ true → a ≡ b
unfolding string_le
string_le_antisym [] [] h k = refl
string_le_antisym [] (y ∷ b) h k = cc
string_le_antisym (x ∷ a) [] h k = cc
string_le_antisym (x ∷ a) (y ∷ b) h k = grind (arith, string_le_antisym a b)

string_le_trans :
    (a b c : Bytes) → string_le a b ≡ true → string_le b c ≡ true → string_le a c ≡ true
unfolding string_le
string_le_trans [] b c h k = refl
string_le_trans (x ∷ a) [] c h k = cc
string_le_trans (x ∷ a) (y ∷ b) [] h k = cc
string_le_trans (x ∷ a) (y ∷ b) (z ∷ c) h k = ground (arith, string_le_trans a b c)

insert-insert : (a b : Bytes) (ss : List Bytes) → insert a (insert b ss) ≡ insert b (insert a ss)
unfolding insert
insert-insert a b [] =
    ground (arith, string_le_total a b, string_le_total b a, string_le_antisym a b)
insert-insert a b (p ∷ ps) = ground (
  arith,
  insert-insert a b ps,
  string_le_total a b,
  string_le_antisym a b,
  string_le_trans a b p,
  string_le_trans b a p,
  string_le_total a p,
  string_le_total b p,
)

digits-no_colon : (s : Bytes) → All IsDigit s → All (λ c. c ≢ b':') s
digits-no_colon [] h = tt
digits-no_colon (c ∷ s) (h, hs) = (ground arith, digits-no_colon s hs)

-- A length and a colon can be read off the front of a text.
number-injective :
    (n m : ℕ) (x y : Bytes)
    → format_uint n ++ b':' ∷ x ≡ format_uint m ++ b':' ∷ y
    → (n ≡ m) × (x ≡ y)
number-injective n m x y h =
    let colon =
      cut-append b':' (format_uint n) x (digits-no_colon (format_uint n) (format_uint-IsDigit n)) in
    let colon' =
      cut-append b':' (format_uint m) y (digits-no_colon (format_uint m) (format_uint-IsDigit m)) in
    let same = sym colon ∙ ap (cut b':') h ∙ colon' in
    (
      sym (value-format_uint n) ∙ ap (λ k. value k.before) same ∙ value-format_uint m,
      ap (λ k. k.after) same,
    )

write-injective : (s t x y : Bytes) → write s ++ x ≡ write t ++ y → (s ≡ t) × (x ≡ y)
unfolding write
write-injective s t x y h =
    let ls = format_uint (length s) in
    let lt = format_uint (length t) in
    let (size, rest) =
      number-injective (length s) (length t) (s ++ x) (t ++ y)
        (sym (append_assoc ls (b':' ∷ s) x) ∙ h ∙ append_assoc lt (b':' ∷ t) y) in
    append-injective s x t y size rest

write_all-injective :
    (ss ts : List Bytes) → length ss ≡ length ts → write_all ss ≡ write_all ts → ss ≡ ts
unfolding write_all
write_all-injective [] [] l h = refl
write_all-injective [] (t ∷ ts) l h = absurd (omega arith)
write_all-injective (s ∷ ss) [] l h = absurd (omega arith)
write_all-injective (s ∷ ss) (t ∷ ts) l h =
    let (first, rest) = write-injective s t (write_all ss) (write_all ts) h in
    ap₂ ◌∷◌ first (write_all-injective ss ts (omega arith) rest)

Texts_set : IsSet (List Bytes)
Texts_set = hlevel ℕ_set

sort-Permᴰ : {ss ts : List Bytes} → Permᴰ ss ts → sort ss ≡ sort ts
unfolding sort
sort-Permᴰ Permᴰ.nil = refl
sort-Permᴰ (Permᴰ.cons e h) = ap₂ insert e (sort-Permᴰ h)
sort-Permᴰ (Permᴰ.swap {a} {b} {a' = c} {b' = d} {l} e f) =
    insert-insert a b (sort l) ∙ ap₂ insert f (ap (λ x. insert x (sort l)) e)
sort-Permᴰ (Permᴰ.trans h k) = sort-Permᴰ h ∙ sort-Permᴰ k

sort-perm : (ss ts : List Bytes) → Perm ss ts → sort ss ≡ sort ts
sort-perm ss ts h = ∥∥₁_elim h (Texts_set (sort ss) (sort ts)) sort-Permᴰ

insert-Perm : (s : Bytes) (ss : List Bytes) → Perm (insert s ss) (s ∷ ss)
unfolding insert
insert-Perm s [] = Perm.refl (s ∷ [])
insert-Perm s (t ∷ ts) = elim (Bool-cases (string_le s t)) [
  | inl e ↦ rw e (Perm.refl (s ∷ t ∷ ts))
  | inr e ↦ rw e (Perm.trans (Perm.cons t (insert-Perm s ts)) (Perm.swap s t ts))
]

sort-Perm : (ss : List Bytes) → Perm (sort ss) ss
unfolding sort
sort-Perm [] = Perm.refl []
sort-Perm (s ∷ ss) = Perm.trans (insert-Perm s (sort ss)) (Perm.cons s (sort-Perm ss))

-- What a grant pins: the id, the kind, and the capabilities with how often each is named.
pub record SameSurface (d e : Descriptor) : Type 0 where
  pub same_id : d.id ≡ e.id
  pub same_kind : kind_text d.kind ≡ kind_text e.kind
  pub same_capabilities : Perm d.capabilities e.capabilities

length-insert : (s : Bytes) (ss : List Bytes) → length (insert s ss) ≡ suc (length ss)
unfolding insert
length-insert s [] = refl
length-insert s (t ∷ ts) = ground (arith, length-insert s ts)

length-sort : (ss : List Bytes) → length (sort ss) ≡ length ss
unfolding sort
length-sort [] = refl
length-sort (s ∷ ss) = length-insert s (sort ss) ∙ ap suc (length-sort ss)

surface-SameSurface : (d e : Descriptor) → surface d ≡ surface e → SameSurface d e
unfolding surface
surface-SameSurface d e h =
    let (_, h) =
      write-injective (codes "stelfin-connector-surface-1") (codes "stelfin-connector-surface-1") _
        _ h in
    let (ids, h) = write-injective d.id e.id _ _ h in
    let (kinds, h) = write-injective (kind_text d.kind) (kind_text e.kind) _ _ h in
    let cs = d.capabilities in
    let ks = e.capabilities in
    let lc = format_uint (length cs) in
    let lk = format_uint (length ks) in
    let (size, rest) =
      number-injective (length cs) (length ks) (write_all (sort cs)) (write_all (sort ks)) (
        sym (append_assoc lc (b':' ∷ []) (write_all (sort cs)))
        ∙ h
        ∙ append_assoc lk (b':' ∷ []) (write_all (sort ks))) in
    let sorted =
      write_all-injective (sort cs) (sort ks) (length-sort cs ∙ size ∙ sym (length-sort ks)) rest in
    record {
      same_id = ids;
      same_kind = kinds;
      same_capabilities =
          Perm.trans (Perm.symm (sort-Perm cs))
            (subst (λ l. Perm l ks) (sym sorted) (sort-Perm ks));
    }

SameSurface-surface : (d e : Descriptor) → SameSurface d e → surface d ≡ surface e
unfolding surface
SameSurface-surface d e p =
    rw
      (
        p.same_id,
        p.same_kind,
        sym (length-sort d.capabilities),
        sort-perm d.capabilities e.capabilities p.same_capabilities,
        length-sort e.capabilities,
      )
      refl

-- The bytes that the digest of a surface is taken of are the same for two descriptors exactly when
-- their ids and kinds are, and the one's capabilities are the other's in some order: reordering a
-- list changes nothing, and no other change goes unnoticed.
pub surface_iff : (d e : Descriptor) → (surface d ≡ surface e) ↔ SameSurface d e
surface_iff d e = (surface-SameSurface d e, SameSurface-surface d e)
