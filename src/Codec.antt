-- ===== src/Codec.antt =====
-- The text codecs: src/hex_encode.cpp, src/url_encode.cpp and src/base64.cpp with
-- include/ashe/base64.h. Bytes are numbers below 256; `malloc` is an argument.
pub mod Hex
pub mod Url
pub mod Base64
pub mod Examples
