-- ===== src/Scenarios.antt =====
-- Concrete messages, drivers and histories, on which the theorems are tried.
mod Json
mod Samples
mod Queueing
mod Breaking
mod Receiving
mod Negotiating
mod Publishing
mod Resolving
mod Racing
mod Exchanging
mod Browsing
mod Alerting
mod Configuring
mod Digesting
mod Logging
mod Sealing
mod Serving
