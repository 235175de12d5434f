-- ===== src/Thumb/Listing.antt =====
-- The meaning of the encodings that monitor/thumb_asm.c disassembles.
pub mod Format
pub mod Narrow
pub mod Wide
