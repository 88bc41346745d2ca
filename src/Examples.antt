-- ===== src/Examples.antt =====
-- The theorems at concrete inputs, and runs of the definitions.
mod Graphs
mod Runs
mod Workflows
mod Queues
mod Decisions
mod Calls
mod Records
mod Flows
mod Installed
mod Policies
