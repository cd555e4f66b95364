-- ===== src/Ledger/Books/Entries.antt =====
-- Sums over ledger entries, and what inserting the lines of one transaction does to the tables.
use mathlib.Core.List.{map}
use stelfin.Prelude.{
  ℕ, ◌<◌, List, [], ◌∷◌, ◌++◌, true, false, ◌&&◌, not, ◌==◌, if◌then◌else◌, ◌≡◌, ◌≢◌, ◌⊎◌, inl, inr,
  refl, sym, ap, ◌∙◌, arith, ok, some, all, All, refuse_if-eq-ok, ok-injective, ==_iff,
}
use stelfin.Prelude.Int.{
  ℤ, pos, negsuc, ◌+ℤ◌, ◌≤ℤ◌, is_int64, IsInt64, ltb_ℤ, eqb_ℤ, int_laws, +ℤ_assoc,
}
use stelfin.Ledger.{Posting, Error}
use stelfin.Ledger.Books.{
  Account, Entry, Books, find_account, update, apply_to_balance, lines_of, sum_asset,
  assert_balanced,
}

-- What the lines of one account in one asset come to.
abbrev pub sum_account : ℕ → ℕ → List Entry → ℤ
sum_account account asset [] = pos 0
sum_account account asset (e ∷ es) =
    let rest = sum_account account asset es in
    if e.account == account && e.asset == asset then e.amount +ℤ rest else rest

+ℤ-nil : (z : ℤ) → z +ℤ pos 0 ≡ z
+ℤ-nil z = omega int_laws

nil_+ℤ : (z : ℤ) → z ≡ pos 0 +ℤ z
nil_+ℤ z = omega int_laws

pub sum_asset-append :
    (s : ℕ) (es fs : List Entry) → sum_asset s (es ++ fs) ≡ sum_asset s es +ℤ sum_asset s fs
sum_asset-append s [] fs = nil_+ℤ (sum_asset s fs)
sum_asset-append s (e ∷ es) fs =
    ground (arith, sum_asset-append s es fs, +ℤ_assoc e.amount (sum_asset s es) (sum_asset s fs))

pub sum_account-append :
    (a s : ℕ) (es fs : List Entry)
    → sum_account a s (es ++ fs) ≡ sum_account a s es +ℤ sum_account a s fs
sum_account-append a s [] fs = nil_+ℤ (sum_account a s fs)
sum_account-append a s (e ∷ es) fs = ground (
  arith,
  sum_account-append a s es fs,
  +ℤ_assoc e.amount (sum_account a s es) (sum_account a s fs),
)

pub lines_of-append :
    (id : ℕ) (es fs : List Entry) → lines_of id (es ++ fs) ≡ lines_of id es ++ lines_of id fs
lines_of-append id [] fs = refl
lines_of-append id (e ∷ es) fs = ground (arith, lines_of-append id es fs)

-- The entry that a posting becomes.
abbrev pub entry : ℕ → Posting → Entry
entry id p = record { transaction = id; account = p.account; asset = p.asset; amount = p.amount }

abbrev pub entries_for : ℕ → List Posting → List Entry
entries_for id = map (entry id)

pub lines_of-own :
    (id : ℕ) (ps : List Posting) → lines_of id (entries_for id ps) ≡ entries_for id ps
lines_of-own id [] = refl
lines_of-own id (p ∷ ps) = ground (arith, lines_of-own id ps)

pub lines_of-other : (id k : ℕ) (ps : List Posting) → id ≢ k → lines_of k (entries_for id ps) ≡ []
lines_of-other id k [] h = refl
lines_of-other id k (p ∷ ps) h = ground (arith, lines_of-other id k ps h)

pub lines_of-fresh :
    (id : ℕ) (es : List Entry) → All (λ e. e.transaction < id) es → lines_of id es ≡ []
lines_of-fresh id [] h = refl
lines_of-fresh id (e ∷ es) (he, hs) = ground (arith, lines_of-fresh id es hs)

-- The trigger's check covers the assets of the lines; the others sum to zero anyway.
eqb_ℤ-eq : (a b : ℤ) → eqb_ℤ a b ≡ true → a ≡ b
eqb_ℤ-eq a b h = omega (int_laws, (==_iff _ _).0 h)

at_asset : (a s : ℕ) (whole : List Entry) → a ≡ s → sum_asset a whole ≡ sum_asset s whole
at_asset a s whole e = ap (λ t. sum_asset t whole) e

all-sum_asset :
    (s : ℕ) (whole es : List Entry)
    → all (λ e. eqb_ℤ (sum_asset e.asset whole) (pos 0)) es ≡ true
    → (sum_asset s whole ≡ pos 0) ⊎ (sum_asset s es ≡ pos 0)
all-sum_asset s whole [] h = inr refl
all-sum_asset s whole (e ∷ es) h = ground (
  arith,
  all-sum_asset s whole es,
  eqb_ℤ-eq (sum_asset e.asset whole) (pos 0),
  at_asset e.asset s whole,
)

pub assert_balanced_sound :
    (s : ℕ) (lines : List Entry) → assert_balanced lines ≡ true → sum_asset s lines ≡ pos 0
unfolding assert_balanced
assert_balanced_sound s lines h = elim (all-sum_asset s lines lines h) [ inl e ↦ e | inr e ↦ e ]

-- What one inserted line leaves.
pub record Inserted (b : Books) (es : List Entry) (b' : Books) : Type 0 where
  pub orgs : b'.orgs ≡ b.orgs
  pub assets : b'.assets ≡ b.assets
  pub next_account : b'.next_account ≡ b.next_account
  pub accounts : b'.accounts ≡ b.accounts
  pub transactions : b'.transactions ≡ b.transactions
  pub next_id : b'.next_id ≡ b.next_id
  pub entries : b'.entries ≡ b.entries ++ es

-- The balances are what the lines come to, an int64 holds each, and only accounts that may go
-- below zero do.
pub record BalancesHold (b : Books) : Type 0 where
  pub derived : (a s : ℕ) → b.balances a s ≡ sum_account a s b.entries
  pub in_range : (a s : ℕ) → IsInt64 (b.balances a s)
  pub covered :
      (a s : ℕ) (x : Account)
      → find_account a b.accounts ≡ some x
      → x.allows_negative ≡ false
      → pos 0 ≤ℤ b.balances a s

-- The balance that the trigger writes.
pub new_balance : Books → Entry → ℤ
new_balance b e = b.balances e.account e.asset +ℤ e.amount

pub applied : Books → Entry → Books
applied b e = record b {
  entries = b.entries ++ e ∷ [];
  balances = update b.balances e.account e.asset (new_balance b e);
}

is_int64-IsInt64 : (z : ℤ) → is_int64 z ≡ true → IsInt64 z
is_int64-IsInt64 (pos n) h = ground arith
is_int64-IsInt64 (negsuc n) h = ground arith

pub apply_to_balance-eq-ok :
    (b : Books) (x : Account) (e : Entry) {b' : Books}
    → apply_to_balance b x e ≡ ok b'
    → (b' ≡ applied b e)
      × IsInt64 (new_balance b e)
      × ((x.allows_negative ≡ false) → pos 0 ≤ℤ new_balance b e)
unfolding apply_to_balance applied new_balance
apply_to_balance-eq-ok b x e h =
    let (fits, h') = refuse_if-eq-ok (not (is_int64 (new_balance b e))) Error.database _ h in
    let (covered, h'') =
      refuse_if-eq-ok (ltb_ℤ (new_balance b e) (pos 0) && not x.allows_negative)
        Error.insufficient_funds _ h' in
    (
      sym (ok-injective h''),
      is_int64-IsInt64 (new_balance b e) (ground arith),
      λ f. nonneg (new_balance b e) (ground arith),
    )
  where
    nonneg : (z : ℤ) → ltb_ℤ z (pos 0) ≡ false → pos 0 ≤ℤ z
    nonneg z k = ground arith

pub applied-Inserted : (b : Books) (e : Entry) → Inserted b (e ∷ []) (applied b e)
unfolding applied
applied-Inserted b e = record {
  orgs = refl;
  assets = refl;
  next_account = refl;
  accounts = refl;
  transactions = refl;
  next_id = refl;
  entries = refl;
}

sum_account-snoc :
    (a s : ℕ) (es : List Entry) (e : Entry)
    → sum_account a s (es ++ e ∷ []) ≡ (
        if e.account == a && e.asset == s
        then sum_account a s es +ℤ e.amount
        else sum_account a s es)
sum_account-snoc a s es e = sum_account-append a s es (e ∷ []) ∙ last
  where
    last : sum_account a s es +ℤ sum_account a s (e ∷ []) ≡ (
        if e.account == a && e.asset == s
        then sum_account a s es +ℤ e.amount
        else sum_account a s es)
    last = ground (arith, +ℤ-nil e.amount, +ℤ-nil (sum_account a s es))

applied-balance :
    (b : Books) (e : Entry) (a s : ℕ)
    → (applied b e).balances a s
      ≡ (if e.account == a && e.asset == s then b.balances a s +ℤ e.amount else b.balances a s)
unfolding applied new_balance
applied-balance b e a s = ground arith

pub applied-BalancesHold :
    (b : Books) (x : Account) (e : Entry)
    → find_account e.account b.accounts ≡ some x
    → IsInt64 (new_balance b e)
    → ((x.allows_negative ≡ false) → pos 0 ≤ℤ new_balance b e)
    → BalancesHold b
    → BalancesHold (applied b e)
unfolding applied
applied-BalancesHold b x e found fits covered v = record {
  derived = λ a s.
      applied-balance b e a s ∙ ground (arith, v.derived a s, sum_account-snoc a s b.entries e);
  in_range = λ a s. ground (arith, v.in_range a s);
  covered = λ a s y h n. ground (arith, v.covered a s y h n);
}
