-- ===== src/Consumer.antt =====
-- app/api/consumer_pf.py: the dashboard of a consumer, in the order in which a request computes it.
pub mod Seeds
pub mod Tiers
pub mod History
pub mod Rewards
pub mod Board
pub mod Requests
pub mod Tests
