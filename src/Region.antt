-- ===== src/Region.antt =====
-- src/region: a branded region of cells, cut into disjoint shards.
pub mod Tiling
pub mod Shard
pub mod ParChunks
pub mod Chunks
