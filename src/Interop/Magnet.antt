-- ===== src/Interop/Magnet.antt =====
-- `parse_magnet` and what it calls. A text is its UTF-8 bytes.
pub mod Base32
pub mod Number
pub mod Percent
pub mod Query
pub mod Hints
mod Tests
use triptorrent.Base.{ℕ}

pub data MagnetError : Type 0 where
  too_large scheme encoding invalid_exact_topic missing_exact_topic : MagnetError
