-- ===== src/Samsara.antt =====
-- cards/js: the frames of the nine database operations.
pub mod ResultFrame
pub mod CreateDb
pub mod DeleteDb
pub mod Write
pub mod Read
pub mod ReadFree
pub mod Delete
pub mod ReadCell
pub mod Diferir
pub mod Cruzar
pub mod Errors
