-- ===== src/UserDb.antt =====
-- The user database of core/vca/sqlite_userdb.cpp over the statements that it runs, its cache of
-- search results, and the order of `FileContents` in core/vca/userdb.h that the cache rests on.
pub mod Contents
pub mod Cache
pub mod Order
pub mod MapTree
pub mod Eviction
pub mod Sql
pub mod Results
pub mod Store
pub mod Search
pub mod Coherence
pub mod Fresh
pub mod Rollback
pub mod Found
pub mod Roots
pub mod Created
