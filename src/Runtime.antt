-- ===== src/Runtime.antt =====
-- runtime: path patterns, the request multiplexers and their helpers.
pub mod FieldMask
pub mod Query
pub mod Pattern
pub mod Http
pub mod Mux
pub mod MuxDynamic
pub mod Status
pub mod Writer
pub mod Forward
pub mod MarshalerRegistry
pub mod Timeout
pub mod Annotate
pub mod TransportStream
