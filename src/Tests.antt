-- ===== src/Tests.antt =====
-- Runs of the model on concrete inputs, and the theorems at them.
mod World
mod Creation
mod Revision
mod Removal
mod Graph
mod Types
mod Bus
mod Access
mod Discovery
mod Tokens
mod Listing
mod Reconcile
mod Limiter
mod Delivery
mod Http
mod Returns
