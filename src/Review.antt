-- ===== src/Review.antt =====
-- The review service: platform/services/review-ui/src/review_ui. A reviewer approves or rejects a
-- row of the review queue, and the decision is posted to a webhook.
pub mod Decisions
pub mod Database
pub mod App
pub mod Auth
pub mod Pages
mod Tests
