-- ===== src/Settlement.antt =====
-- settlement: building and sending transactions. Of it, settlement/retry.go is modelled.
pub mod Retry
