-- ===== src/Ingestion/Tests.antt =====
-- A round of ingestion at concrete inputs: two records for a tracked treasury of org 1, the second of
-- which cannot be read.
use stelfin.Prelude.{
  ℕ, List, [], ◌∷◌, Bool, false, true, ◌≡◌, refl, arith, Option, some, none, Result, ok, err,
}
use stelfin.Prelude.Int.{pos}
use stelfin.Text.{Bytes, codes}
use stelfin.Ledger.{treasury, at_nano}
use stelfin.Ledger.Books.{Books}
use stelfin.Ingestion.{Error, TrackedAddress, Movement, Record, Ingester, load_cursor}
use stelfin.Ingestion.Apply.{OrgEntry, once, entries_for, external_for, send}
use stelfin.Ingestion.Cursor.{Resumes, once-Resumes}
use stelfin.Ingestion.Balanced.{Booked, entries_for-Booked}

abbrev same : Bytes → Bytes
same s = s

abbrev ours : TrackedAddress
ours = record { address = codes "GA"; org = 1; account = 1 }

abbrev movement : Bool → Movement
movement is_unreadable = record {
  from = codes "GB";
  to = codes "GA";
  asset_type = codes "native";
  asset_code = [];
  asset_issuer = [];
  amount = pos 7;
  is_unreadable = is_unreadable;
}

abbrev arrived : Bytes → Bool → Record
arrived cursor is_unreadable = record {
  cursor = cursor;
  id = cursor;
  tx_hash = [];
  occurred_at = at_nano (pos 9);
  movements = movement is_unreadable ∷ [];
  closed = [];
}

abbrev page : List Record
page = arrived (codes "1") false ∷ arrived (codes "2") true ∷ []

abbrev fetch : Bytes → Result Error (List Record)
fetch cursor = ok page

abbrev empty_books : Books
empty_books = record {
  orgs = 1 ∷ [];
  assets = [];
  accounts =
      record {
        id = 1;
        org = 1;
        kind = treasury;
        owner_ref = [];
        name = codes "main";
        allows_negative = false;
      }
      ∷ [];
  transactions = [];
  entries = [];
  balances = λ account asset. pos 0;
  next_id = 1;
  next_account = 2;
  next_asset = 1;
}

abbrev start : Ingester
start = record { books = empty_books; tracked = ours ∷ []; cursors = []; external_of = [] }

once-Resumes_example :
    Resumes same same
      (codes "s")
      start
      (once same same (codes "s") fetch start).0
      page
      (once same same (codes "s") fetch start).1.0
      (once same same (codes "s") fetch start).1.1
once-Resumes_example = once-Resumes same same (codes "s") fetch start page refl

-- The round books the first record and stops at the second.
stopped : (once same same (codes "s") fetch start).1 ≡ (1, some Error.unreadable)
unfolding once stelfin.Ingestion.Apply.consume stelfin.Ingestion.Apply.apply
    stelfin.Ingestion.Apply.apply_movements stelfin.Ingestion.Apply.apply_movement
    stelfin.Ingestion.find_tracked stelfin.Money.sign stelfin.Ingestion.Apply.post_movement
    stelfin.Ingestion.Apply.resolve_asset stelfin.Ledger.Registry.ensure_asset
    stelfin.Ledger.Registry.issuer_allowed stelfin.Ledger.Registry.find_asset entries_for
    stelfin.Ingestion.Apply.leaving stelfin.Ingestion.Apply.entering external_for
    stelfin.Ingestion.lookup stelfin.Ledger.Registry.ensure_account stelfin.Ingestion.Apply.post_all
    stelfin.Ingestion.Apply.post_entry stelfin.Ingestion.Apply.key_of stelfin.Ingestion.save_cursor
    stelfin.Ledger.Books.apply_to_balance stelfin.Ledger.Books.assert_balanced
    stelfin.Ledger.Books.belongs_to stelfin.Ledger.Books.commit stelfin.Ledger.Books.find_account
    stelfin.Ledger.Books.find_key stelfin.Ledger.Books.insert_entries
    stelfin.Ledger.Books.insert_entry stelfin.Ledger.Books.insert_transaction
    stelfin.Ledger.Books.post stelfin.Ledger.Books.row_allowed stelfin.Ledger.Registry.find_match
    stelfin.Ledger.append_amount stelfin.Ledger.check_asset stelfin.Ledger.check_assets
    stelfin.Ledger.check_lines stelfin.Ledger.collect stelfin.Ledger.validate stelfin.Money.is_zero
    stelfin.Money.sum stelfin.Money.add stelfin.Prelude.Int.neg stelfin.Prelude.Int.wrap
    stelfin.Prelude.Int.◌+ℤ◌
stopped = refl

-- A payment between two treasuries of one org.
abbrev other_treasury : TrackedAddress
other_treasury = record { address = codes "GB"; org = 1; account = 2 }

sent :
    (entries_for same same (some ours) (some other_treasury) 1 (pos 7) start).1
    ≡ ok (send ours other_treasury 1 (pos 7) ∷ [])
unfolding entries_for
sent = refl

entries_for-Booked_example :
    Booked (some ours) (some other_treasury) (send ours other_treasury 1 (pos 7) ∷ [])
entries_for-Booked_example =
    entries_for-Booked same same (some ours) (some other_treasury) 1 6 (ground arith) start
      (send ours other_treasury 1 (pos 7) ∷ []) sent
