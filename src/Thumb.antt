-- ===== src/Thumb.antt =====
-- monitor/thumb_asm.c and monitor/thumb_asm.h: instructions, the disassembler and the assembler.
pub mod Spec
pub mod Registers
pub mod Disassemble
pub mod Listing
pub mod Assemble
