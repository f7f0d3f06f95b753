-- ===== src/Hash.antt =====
-- The hashes of the library: src/crc32.cpp, src/md5.cpp and src/sha1.cpp.
pub mod Xor
pub mod Blocks
pub mod Chunks
pub mod Crc32
pub mod Md5
pub mod Sha1
mod Examples
