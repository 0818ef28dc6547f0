-- ===== src/Tests.antt =====
-- The theorems applied to concrete values, and the tests.
mod Values
mod Device
mod Runs
mod Graphs
mod Prepared
mod Llm
mod Requests
