-- ===== src/Thumb/Assemble/ReadBack.antt =====
-- What `thumb_assemble` of monitor/thumb_asm.c stores is read back by `thumb_disassemble`: the rules
-- for one encoder, for an encoder with a fallback, and for a branch.
pub mod Arithmetic
pub mod Branch
pub mod Load
pub mod Stack
pub mod Move
pub mod Rules
