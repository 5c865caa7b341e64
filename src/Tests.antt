-- ===== src/Tests.antt =====
-- Runs of the components on small inputs.
mod Tables
mod Handles
mod Frames
mod LinkRuns
mod Sources
mod Models
mod Navigators
mod Devices
mod BlockRuns
mod SioRuns
mod Files
mod Tuples
mod Entries
