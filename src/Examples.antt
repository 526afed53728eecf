-- ===== src/Examples.antt =====
-- Tests of the models on small inputs, and the theorems at inputs that meet their hypotheses.
mod World
mod Elections
mod Starts
mod Statuses
mod Signings
mod Subscriptions
mod Messages
mod Processes
mod Parties
mod Calls
mod Gate
mod Configs
mod Texts
mod Frosts
mod Locks
mod Requests
