-- ===== src/Thumb/Assemble/Accept.antt =====
-- When `thumb_assemble` of monitor/thumb_asm.c succeeds.
pub mod Width
pub mod Move
pub mod Arithmetic
pub mod Branch
pub mod Load
pub mod Stack
