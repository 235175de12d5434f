-- ===== src/Encoding.antt =====
-- monitor/autogen_encodings: one module for each group of instructions.
pub mod Macros
pub mod Add
pub mod Sub
pub mod BranchNarrow
pub mod BranchWide
pub mod Compare
pub mod LoadNarrow
pub mod LoadWide
pub mod Move
pub mod Pop
pub mod Push
pub mod Trap
pub mod Narrow
pub mod Wide
pub mod Gaps
