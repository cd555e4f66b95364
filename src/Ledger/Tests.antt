-- ===== src/Ledger/Tests.antt =====
-- The ledger at concrete inputs: a treasury (account 1) funded from outside (account 2).
use mathlib.Core.List.Perm
use stelfin.Prelude.{
  ℕ, zero, suc, ◌<◌, List, [], ◌∷◌, ◌++◌, true, false, ◌≡◌, ◌≢◌, ◌↔◌, inl, inr, refl, arith, Option,
  some, none, Result, err, ok, All, if◌then◌else◌, Bool,
}
use stelfin.Prelude.Int.{ℤ, pos, negsuc}
use stelfin.Text.{Bytes, codes, bytes_eq}
use stelfin.Ledger.{
  Error, Posting, PostRequest, treasury, external, fee_expense, trading, at_nano, validate,
}
use stelfin.Ledger.Validate.Lines.{NonZero, IsBalanced}
use stelfin.Ledger.Validate.{IsComplete, validate_iff}
use stelfin.Ledger.Fingerprint.{fingerprint, preimage, unix_nano}
use stelfin.Ledger.Fingerprint.Encoding.{SameContent, Fits, preimage_iff}
use stelfin.Ledger.Books.{Books, Account, Asset, row_allowed, find_account, update, post}
use stelfin.Ledger.Books.Invariant.{IsConsistent, post-IsConsistent}
use stelfin.Ledger.Messages.Once.{wins, won_once}
use stelfin.Ledger.Registry.{ensure_account, ensure_asset}
use stelfin.Ledger.Registry.Answers.{Answer, ensure_account_answers}
use stelfin.Ledger.Registry.Same.{next, here, account_ensured, asset_ensured, ensure_account_again}
use stelfin.Ledger.Books.Replay.{post_again, post_reordered}

abbrev into_treasury : Posting
into_treasury = record { account = 1; asset = 1; amount = pos 5 }

abbrev from_outside : Posting
from_outside = record { account = 2; asset = 1; amount = negsuc 4 }

abbrev deposit : List Posting → PostRequest
deposit lines = record {
  org = 1;
  idempotency_key = codes "k";
  kind = codes "deposit";
  external_ref = [];
  occurred_at = at_nano (pos 9);
  metadata = [];
  postings = lines;
}

abbrev first : PostRequest
first = deposit (into_treasury ∷ from_outside ∷ [])

abbrev retried : PostRequest
retried = deposit (from_outside ∷ into_treasury ∷ [])

abbrev empty : Books
empty = record {
  orgs = 1 ∷ [];
  assets = record { id = 1; code = codes "XLM"; issuer = [] } ∷ [];
  accounts =
      record {
        id = 1;
        org = 1;
        kind = treasury;
        owner_ref = [];
        name = [];
        allows_negative = false;
      }
      ∷ record {
        id = 2;
        org = 1;
        kind = external;
        owner_ref = [];
        name = [];
        allows_negative = true;
      }
      ∷ [];
  transactions = [];
  entries = [];
  balances = λ account asset. pos 0;
  next_id = 1;
  next_account = 3;
  next_asset = 2;
}

-- The bytes stand for their own hash.
abbrev same : Bytes → Bytes
same s = s

abbrev posted : Books
posted = record empty {
  transactions =
      record {
        id = 1;
        org = 1;
        idempotency_key = codes "k";
        request_fingerprint = fingerprint same first;
        kind = codes "deposit";
        external_ref = [];
        occurred_at = at_nano (pos 9);
        metadata = codes "{}";
      }
      ∷ [];
  entries =
      record { transaction = 1; account = 1; asset = 1; amount = pos 5 }
      ∷ record { transaction = 1; account = 2; asset = 1; amount = negsuc 4 }
      ∷ [];
  balances = update (update (λ account asset. pos 0) 1 1 (pos 5)) 2 1 (negsuc 4);
  next_id = 2;
}

first-posted : post same empty first ≡ ok (1, posted)
unfolding post validate stelfin.Ledger.check_lines stelfin.Ledger.collect stelfin.Money.is_zero
    stelfin.Ledger.check_assets stelfin.Ledger.append_amount stelfin.Ledger.check_asset
    stelfin.Money.sum stelfin.Money.add stelfin.Prelude.Int.wrap stelfin.Prelude.Int.◌+ℤ◌
    row_allowed stelfin.Ledger.Books.find_key stelfin.Ledger.Books.insert_transaction
    stelfin.Ledger.Books.insert_entries stelfin.Ledger.Books.insert_entry find_account
    stelfin.Ledger.Books.apply_to_balance stelfin.Ledger.Books.assert_balanced
    stelfin.Ledger.Books.belongs_to stelfin.Ledger.Books.commit
first-posted = refl

empty-IsConsistent : IsConsistent empty
empty-IsConsistent = record {
  holds = record {
    derived = λ a s. refl;
    in_range = λ a s. ground arith;
    covered = λ a s x h n. ground arith;
  };
  fresh = tt;
  rows = tt;
  balanced = λ id s. refl;
  closed = λ s. refl;
  known = tt;
  numbered = (ground arith, (ground arith, tt));
  single_org = tt;
}

post-IsConsistent_example : IsConsistent posted
post-IsConsistent_example = post-IsConsistent same empty first empty-IsConsistent first-posted

retried-validate : validate retried ≡ ok tt
unfolding validate stelfin.Ledger.check_lines stelfin.Ledger.collect stelfin.Money.is_zero
    stelfin.Ledger.check_assets stelfin.Ledger.append_amount stelfin.Ledger.check_asset
    stelfin.Money.sum stelfin.Money.add stelfin.Prelude.Int.wrap stelfin.Prelude.Int.◌+ℤ◌
retried-validate = refl

retried-row_allowed : row_allowed retried ≡ true
unfolding row_allowed
retried-row_allowed = refl

post_again_example : post same posted retried ≡ (
    if bytes_eq (fingerprint same first) (fingerprint same retried)
    then ok (1, posted)
    else err Error.idempotency_key_reused)
post_again_example =
    post_again same empty first retried first-posted refl refl retried-validate retried-row_allowed

first-SameContent : SameContent first retried
first-SameContent = (refl, refl, refl, refl, Perm.swap from_outside into_treasury [])

post_reordered_example : post same posted retried ≡ ok (1, posted)
post_reordered_example =
    post_reordered same empty first retried first-posted refl first-SameContent retried-validate
      retried-row_allowed

first-Fits : Fits first
unfolding unix_nano
first-Fits = (ground arith, ground arith, ground arith, ground arith, ground arith, ground arith)

retried-Fits : Fits retried
unfolding unix_nano
retried-Fits = (ground arith, ground arith, ground arith, ground arith, ground arith, ground arith)

preimage_iff_example : (preimage first ≡ preimage retried) ↔ SameContent first retried
preimage_iff_example = preimage_iff first retried first-Fits retried-Fits

validate_iff_example :
    (validate first ≡ ok tt)
    ↔ (IsComplete first × All NonZero first.postings × IsBalanced first.postings)
validate_iff_example = validate_iff first (ground arith, (ground arith, tt))

-- A fee account that is not there yet, and its books.
abbrev fees : Account
fees = record {
  id = empty.next_account;
  org = 1;
  kind = fee_expense;
  owner_ref = [];
  name = codes "fees";
  allows_negative = false;
}

abbrev with_fees : Books
with_fees = record empty {
  accounts = empty.accounts ++ fees ∷ [];
  next_account = suc empty.next_account;
}

fees_made :
    ensure_account same empty 1 fee_expense [] (codes "fees") ≡ (with_fees, ok empty.next_account)
unfolding ensure_account stelfin.Ledger.Registry.find_match
fees_made = refl

ensure_account_answers_example :
    Answer same empty 1 fee_expense []
      (codes "fees")
      (ensure_account same empty 1 fee_expense [] (codes "fees")).0
      (ensure_account same empty 1 fee_expense [] (codes "fees")).1
ensure_account_answers_example = ensure_account_answers same empty 1 fee_expense [] (codes "fees")

-- Another account and an asset are registered in between.
ensure_account_again_example :
    ensure_account same
      (ensure_asset (ensure_account same with_fees 1 trading [] (codes "t")).0 (codes "USDC") []).0
      1
      fee_expense
      []
      (codes "fees")
    ≡ (
      (ensure_asset (ensure_account same with_fees 1 trading [] (codes "t")).0 (codes "USDC") []).0,
      ok empty.next_account,
    )
ensure_account_again_example =
    ensure_account_again same 1 fee_expense [] (codes "fees") same empty with_fees
      (ensure_asset (ensure_account same with_fees 1 trading [] (codes "t")).0 (codes "USDC") []).0
      empty.next_account fees_made
      (next (next here (account_ensured 1 trading [] (codes "t")))
        (asset_ensured (codes "USDC") []))

won_once_example : wins (codes "m") [] (codes "n" ∷ codes "m" ∷ codes "m" ∷ []) ≡ 1
won_once_example =
    won_once (codes "m") [] (codes "n" ∷ codes "m" ∷ codes "m" ∷ []) (λ e. cc) refl refl
