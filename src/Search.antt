-- ===== src/Search.antt =====
-- apps/api/src/search/search.service.ts: the search for rooms across venues.
pub mod Query
pub mod Pages
pub mod Complete
pub mod Sound
mod Tests
