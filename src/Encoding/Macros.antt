-- ===== src/Encoding/Macros.antt =====
-- The macros of monitor/autogen_encodings/t32_encoding.c, with their arithmetic.
mod Defs
mod Laws
unfoldable pub use Defs.*
pub use Laws.*
