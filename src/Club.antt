-- ===== src/Club.antt =====
-- The clubs: their access control, custom-addons/club_access_control/models/club_access_entry.py, and
-- the objects that they lend, custom-addons/club_object_loan/models (`Loans`).
--
-- `Schema` has the rows; `Persons` what is decided of a person, `Lookup` the lookups
-- by an identifier and `Access` the methods of an entry.
pub mod Schema
pub mod Persons
pub mod Lookup
pub mod Access
pub mod Loans
mod Tests
