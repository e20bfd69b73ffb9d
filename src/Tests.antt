-- ===== src/Tests.antt =====
-- Runs of the definitions on concrete values, and the theorems at concrete inputs.
mod Engines
mod Pools
mod Controllers
mod Cluster
mod Enforces
mod Settles
mod Policies
mod ConfigMaps
mod Starts
mod Runs
mod Reconciles
mod Deletions
mod Rests
mod Configures
mod Sequences
mod Uncheckeds
mod Frames
mod Converges
