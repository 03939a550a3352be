-- ===== src/Policy.antt =====
-- forgeboss/policy: which work may start without a review of the reuse of existing software, and what
-- such a review must record.
pub mod ReuseReview
pub mod Signed
pub mod SmallRepair
pub mod TaskReadiness
pub mod Receipt
pub mod PermanentRules
pub mod Examples
