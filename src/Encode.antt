-- ===== src/Encode.antt =====
-- src/encode and src/app/EncodeProfile.h: what becomes of an encoder's output, and its bit rates.
pub mod AnnexB
pub mod Encoder
pub mod Profile
