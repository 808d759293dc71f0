-- ===== src/Tabs.antt =====
-- The list tabs of internal/api/frontend/js/tabs.
pub mod Names
pub mod Networks
pub mod Profiles
pub mod Gateways
pub mod Orgs
pub mod Devices
pub mod DeviceStatus
pub mod Fetching
pub mod Details
pub mod FilterSelects
