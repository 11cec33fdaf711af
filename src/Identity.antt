-- ===== src/Identity.antt =====
-- internal/identity: resolving people by name.
pub mod Handle
pub mod Person
pub mod CommonNames
pub mod Policy
pub mod Builder
pub mod Build
pub mod Search
