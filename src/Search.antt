-- ===== src/Search.antt =====
-- src/search.rs: the best hits of a query, and what the queries read.
pub mod Heap
pub mod Best
pub mod Score
pub mod Hits
pub mod Pending
pub mod Top
pub mod Vector
pub mod Text
pub mod Query
