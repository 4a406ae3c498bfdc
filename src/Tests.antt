-- ===== src/Tests.antt =====
-- Runs of the models on small inputs, and the theorems applied at concrete inputs.
mod Templates
mod Patterns
mod Routing
mod Responses
mod Metadata
mod Paths
mod FieldMasks
mod Descriptors
mod Tries
mod Queries
