-- ===== src/Addon.antt =====
-- Addons as they are loaded from a repository (internal/addon).
pub mod Form
pub mod Conversion
pub mod Loader
pub mod Provider
mod Tests
