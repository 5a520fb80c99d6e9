-- ===== src/Tests.antt =====
-- Runs of the model on concrete inputs, with concrete functions in place of the external ones.
mod Ready
mod FallbackSpend
mod Participant
mod Collection
mod Service
mod Conditions
mod ToyHost
mod Inbox
mod Resolution
mod Aggregation
mod Resolver
mod ToyEnv
mod KeyManager
mod Smt
mod Toy
