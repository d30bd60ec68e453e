-- ===== src/Wav/RoundTrip.antt =====
-- A wave file that was written is read back.
mod Headers
pub mod Opening
pub mod Streams
