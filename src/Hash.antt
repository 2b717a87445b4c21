-- ===== src/Hash.antt =====
-- pkg/hash: the extendible hash table.
pub mod Bucket
pub mod Table
