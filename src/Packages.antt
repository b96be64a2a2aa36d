-- ===== src/Packages.antt =====
-- The runtime of packages, template/codegen_kit/packages.py: the manifest in `Manifest`, discovery and
-- activation in `Activation`, startup and shutdown in `Lifecycle`.
pub mod Manifest
pub mod Activation
pub mod Lifecycle
mod Tests
