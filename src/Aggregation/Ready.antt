-- ===== src/Aggregation/Ready.antt =====
-- The end of keygen between the service and a participant: finalizeKeygen of service.ts, and
-- #handleCohortReady of participant.ts with validateMembership of cohort.ts.
pub mod Address
pub mod Agreement
