-- ===== src/Batch.antt =====
-- rust/facilitator/src/batch.rs and the channel store of lib.rs: the payment channels of the batch
-- scheme.
pub mod Checks
pub mod Voucher
pub mod Channel
pub mod Amounts
pub mod Transitions
pub mod Store
pub mod Writers
pub mod Update
pub mod Revisions
pub mod Swap
pub mod Stored
pub mod Returns
pub mod Requests
