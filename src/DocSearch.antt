-- ===== src/DocSearch.antt =====
-- The search of the generated documentation (Doc/html/search/search.js).
pub mod Text
pub mod Match
pub mod Rows
pub mod Results
pub mod Keys
pub mod Box
pub mod Index
