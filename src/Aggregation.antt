-- ===== src/Aggregation.antt =====
-- packages/aggregation: cohorts, their signing sessions, and the inboxes of the service.
pub mod Ready
pub mod Inbox
pub mod Cohort
pub mod Conditions
pub mod Recovery
pub mod Participant
pub mod Service
pub mod Strategy
pub mod Messages
pub mod FallbackSpend
pub mod Session
