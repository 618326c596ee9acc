-- ===== src/License.antt =====
-- The license gate of self-hosted installations, custom-addons/saas_license_gate/models.
--
-- `Gate` has license_gate.py, the check that asks the authority and the verdict it stores;
-- `Enforcement` has enforcement.py, which lets a write pass by that verdict. `Check` has what one check
-- leaves behind, `History` sequences of checks, and `Stamp` what is read back of one.
pub mod Gate
pub mod Enforcement
pub mod Check
pub mod History
pub mod Stamp
mod Tests
