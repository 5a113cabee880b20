-- ===== src/Examples.antt =====
-- Runs of the entry points on a small contract.
pub mod Scene
mod EscrowRuns
mod BatchRuns
mod RegistrationRuns
mod RefundRuns
mod DisputeRuns
mod PaymentRuns
mod MultisigRuns
mod SubscriptionRuns
mod AdminRuns
mod AuditRuns
mod Sorting
mod QueryRuns
mod CleanupRuns
mod RouterRuns
mod SettingRuns
mod ClientRuns
