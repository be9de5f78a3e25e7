-- ===== src/Tests.antt =====
-- The theorems at concrete inputs.
mod Bits
mod Scans
mod Columns
mod Catalogs
mod Chunks
mod Arrays
mod Sets
