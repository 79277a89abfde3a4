-- ===== src/Engine/Date.antt =====
-- The calendar of the `Date` objects of .backup/quickjs.c, and the strings of dates.
pub mod Calendar
pub mod Year
pub mod Fields
pub mod Access
pub mod Print
pub mod Scan
pub mod Iso
