-- ===== src/Tests.antt =====
-- Runs of the definitions on small inputs, and the theorems at inputs that meet their conditions.
mod Samples
mod Ids
mod Sessions
mod Tasks
mod Sweeps
mod People
mod Deliveries
mod Routes
mod Requests
mod Starts
mod Commands
mod Mounts
mod Runner
mod Access
mod Agents
mod Files
mod Stores
