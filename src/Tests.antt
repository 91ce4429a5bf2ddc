-- ===== src/Tests.antt =====
-- Runs on concrete data: the theorems of the library applied to small logs, engines and keys.
mod Access
mod Log
mod Sample
mod Engine
mod Cluster
mod Graph
mod Query
