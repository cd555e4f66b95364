-- ===== src/Store.antt =====
-- ledger/store: the service's own records in the database, beside the books.
pub mod Proposals
pub mod Challenges
pub mod Members
mod Tests
