-- ===== src/PaymentDb.antt =====
-- The app's local payment database (app-rs/src/payments.rs): the payments that were synced from the
-- node, in a sorted list, with three bitmap indexes for the lists that the app scrolls through.
pub mod Basic
pub mod Bitmap
pub mod State
pub mod Lookups
pub mod Invariant
pub mod Counts
pub mod Scroll
pub mod Indexes
pub mod Storage
pub mod Insert
pub mod Order
pub mod Find
pub mod Update
pub mod Disk
pub mod Build
pub mod Sync
pub mod Tests
pub mod Appended
