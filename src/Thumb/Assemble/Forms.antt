-- ===== src/Thumb/Assemble/Forms.antt =====
-- Assembling and disassembling the instructions of monitor/thumb_asm.c, by their forms.
pub mod Move
pub mod Arithmetic
pub mod Branch
pub mod Load
pub mod Always
pub mod Stack
