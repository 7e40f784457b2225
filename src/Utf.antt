-- ===== src/Utf.antt =====
-- libtrn/utf.cpp: text in UTF-8 and other character sets.
pub mod Scalar
pub mod Charset
pub mod Decoder
pub mod Graphic
