-- ===== src/Fetch.antt =====
-- The Reference Fetcher: filedge/fetch/.
pub mod Plan
pub mod Client
pub mod Paging
pub mod Cursor
pub mod Run
pub mod Order
