-- ===== src/Hotel.antt =====
-- The hotel addon, custom-addons/goliatt_pms/models: reservations and the rooms they stay in, the
-- folios that their charges are posted to, the night audit, housekeeping and the check-in kiosk.
--
-- `Schema` has the rows and the ways to write them. `Reservation`, `Folio`, `Audit`, `Housekeeping`
-- and `Kiosk` have the methods of the models of those names; `Lifecycle` puts them in sequence.
pub mod Schema
pub mod Reservation
pub mod Folio
pub mod Audit
pub mod Housekeeping
pub mod Kiosk
pub mod Lifecycle
mod Samples
mod Tests
