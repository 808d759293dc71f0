-- ===== src/Tests.antt =====
-- Concrete data, and each theorem that has hypotheses or variables at a concrete input.
pub mod Data
pub mod Tables
pub mod Screens
pub mod Samples
pub mod Parts
pub mod Runs
pub mod Wizards
pub mod Requests
pub mod Configs
pub mod Fetches
pub mod Drawers
mod Sessions
mod Looks
mod Pages
mod Panels
