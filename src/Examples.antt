-- ===== src/Examples.antt =====
-- Tests, and the theorems at concrete inputs.
mod Setup
mod Texts
mod Books
mod Channels
mod Collections
mod Workers
mod Attempts
mod Receipts
mod Payments
mod Requests
