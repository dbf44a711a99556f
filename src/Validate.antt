-- ===== src/Validate.antt =====
-- scripts/validate_observability.py: the check of dashboards, datasources and rules.
pub mod Values
pub mod Dashboards
pub mod Rules
pub mod Script
pub mod Laws
pub mod Findings
pub mod SoundDashboards
pub mod SoundRule
pub mod SoundRules
pub mod Sound
mod Tests
