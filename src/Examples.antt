-- ===== src/Examples.antt =====
-- Concrete runs: a small cluster, and an example of each property that has conditions.
mod World
mod Controller
mod Upgrade
mod Requests
mod Stores
mod Values
mod Installed
mod Charts
mod Life
mod Rounds
mod Round
mod Cluster
