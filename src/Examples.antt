-- ===== src/Examples.antt =====
-- The properties at concrete inputs: a world with one tenant, and one run of each property in it.
pub mod Data
pub mod Adapters
pub mod Sessions
pub mod Administration
pub mod Inputs
pub mod Handling
pub mod Learning
