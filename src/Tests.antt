-- ===== src/Tests.antt =====
-- Small clusters with concrete contents, and runs of the models on them.
mod Clusters
mod Requests
mod Waits
mod Configurations
mod Groups
mod Machines
mod MachineSets
mod Events
mod Gathering
mod Draining
mod AtOnce
mod Autoscaling
mod Threads
mod Wiring
mod Orders
