-- ===== src/Runtime/Query.antt =====
-- runtime/query.go: query parameters of a request, written into a message.
pub mod Fields
pub mod Parse
pub mod Calm
pub mod Safety
pub mod Filter
