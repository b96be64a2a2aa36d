-- ===== src/Spec.antt =====
-- The specification of models: framework/spec/types.py in `Types`, framework/spec/models.py in `Models`.
pub mod Types
pub mod Models
pub mod Operations
pub mod Packages
mod Tests
pub mod Manifests
