-- ===== src/Examples.antt =====
-- examples: programs that use the crate through its public interface.
pub mod Codegen
pub mod Client
pub mod BrandedCell
pub mod ConditionalAtomics
