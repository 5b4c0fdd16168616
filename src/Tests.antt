-- ===== src/Tests.antt =====
-- Runs of the model on small inputs, and each theorem applied at such an input.
mod Nodes
mod Replication
mod Runs
mod Codecs
mod Clients
mod Calls
mod Elections
mod SkipLists
mod Retries
mod Configs
