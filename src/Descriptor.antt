-- ===== src/Descriptor.antt =====
-- internal/descriptor: the registry that the generators read service descriptions into.
pub mod Protos
pub mod Types
pub mod Convert
pub mod Registry
pub mod Services
