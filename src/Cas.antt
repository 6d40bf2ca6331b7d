-- ===== src/Cas.antt =====
-- cas/pkg: the cluster autoscaler suite's own helpers, a module for each part.
pub mod Objects
pub mod Timeouts
pub mod Client
pub mod Nodes
pub mod Machines
pub mod MachineSets
pub mod Jobs
pub mod Checks
pub mod Events
pub mod Gatherer
pub mod Cluster
pub mod Gomega
pub mod Eventual
pub mod Setup
pub mod Autoscaler
