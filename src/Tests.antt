-- ===== src/Tests.antt =====
-- Concrete runs of the model.
mod World
mod Policies
mod Batches
mod Runs
mod Shell
mod Plans
mod Graphs
mod Sessions
mod Verifying
mod Routing
mod Condensing
mod Tenants
mod Planning
mod Editing
