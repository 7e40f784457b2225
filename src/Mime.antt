-- ===== src/Mime.antt =====
-- libtrn/mime.cpp: the transfer encodings of MIME.
pub mod Quoted
pub mod Base64
