-- ===== src/Checks.antt =====
-- The theorems at concrete instructions.
mod Assembler
mod Encodings
mod Disassembler
