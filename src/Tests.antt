-- ===== src/Tests.antt =====
-- Runs of the model on small inputs, and the theorems at inputs that meet their hypotheses.
mod Queues
mod Timers
mod Handles
mod Buffers
mod Gates
mod Packets
mod Values
mod HashIds
mod Crypts
mod Clusters
mod Harbors
mod Workers
mod Services
