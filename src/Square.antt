-- ===== src/Square.antt =====
-- The vendor Square, square/: orders, their lines and their payments.
pub mod Lines
pub mod Turns
pub mod Merging
pub mod Machines
pub mod Readers
pub mod Entities
pub mod Totals
pub mod Resolving
pub mod Tenders
pub mod Payments
pub mod Tendering
pub mod Amounts
pub mod Completing
pub mod Accepting
pub mod Reads
pub mod Capturing
pub mod Passed
pub mod Paid
pub mod Found
pub mod Captures
pub mod Capturable
pub mod Returning
pub mod Refusing
mod Tests
mod PaymentSamples
mod PaymentTests
