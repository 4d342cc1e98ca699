-- ===== src/Transform.antt =====
-- transform.c: the transforms of dispatch data.
pub mod Tables
pub mod Base64
pub mod Rfc4648
pub mod RoundTrip
pub mod Base32
pub mod Rejecting
pub mod Encoder
pub mod LastByte
pub mod Utf
pub mod Formats
pub mod Examples
