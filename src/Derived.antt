-- ===== src/Derived.antt =====
-- src/sources/derived: the data sets that are computed from the fetched ones.
pub mod Staging
