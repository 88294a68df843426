-- ===== src/Evolution/Delivery.antt =====
-- packages/evolution-core/src/delivery-operation.ts: the lease under which a delivery operation works, as
-- files of a directory that several processes share.
pub mod Operation
pub mod Record
pub mod Inspection
pub mod Lease
pub mod Recovery
pub mod RoundTrip
pub mod Verdicts
pub mod Processes
pub mod Ownership
pub mod Holding
pub mod Exclusion
pub mod Restart
pub mod Racing
