-- ===== src/Core.antt =====
-- src/core/Core.hpp: the order in which the parts start and stop, the checks of the configuration
-- before they do, and the health of the whole.
pub mod Lifecycle
pub mod Validate
pub mod Health
