-- ===== src/Tests.antt =====
-- Concrete inputs for the properties that have hypotheses.
mod Copy
mod Puts
pub mod Gets
pub mod Uploads
mod Histories
pub mod Sound
pub mod Processes
pub mod Caches
