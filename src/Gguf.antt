-- ===== src/Gguf.antt =====
-- The metadata block of a GGUF file: src/jaull/metadata/gguf_reader.py.
pub mod Bytes
pub mod Cursor
pub mod Values
pub mod Header
pub mod Stable
pub mod Prefix
pub mod Partial
pub mod Agreement
pub mod Grammar
pub mod Accepts
pub mod RoundTrip
pub mod Tensors
