-- ===== src/Examples.antt =====
-- Runs of the theorems at concrete inputs, one module for each part of the repository.
mod Executions
mod Limits
mod Conversations
mod Contexts
mod Messages
mod Providers
mod Policies
mod Pools
mod Retrieval
mod Tools
mod Pauses
mod Envelopes
