-- ===== src/Tests.antt =====
-- Concrete runs of the components, and the theorems at inputs that meet their hypotheses.
mod Publishing
mod Consuming
mod Providing
mod Collecting
mod Transferring
mod Listening
mod Logging
mod Querying
mod Starting
mod Recording
mod Delivering
mod Waiting
mod Crashing
