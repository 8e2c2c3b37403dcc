-- ===== src/Source.antt =====
-- The steam-source crate: paging through the catalogue and the daily budget of requests.
pub mod DailyBudget
pub mod AppList
