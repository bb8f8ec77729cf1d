-- ===== src/Scenarios.antt =====
-- Concrete runs of the properties, by component.
mod Quorums
mod Logs
mod Replication
mod Nodes
mod Elections
mod Leading
mod Voting
mod Runs
mod Committing
mod Transferring
mod Loading
mod Starting
mod Stores
mod Reading
mod Established
