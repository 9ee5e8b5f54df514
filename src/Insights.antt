-- ===== src/Insights.antt =====
-- internal/insights: the states that the dashboard shows as the latest ones.
pub mod Latest
pub mod States
