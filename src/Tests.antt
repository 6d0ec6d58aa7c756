-- ===== src/Tests.antt =====
-- Runs of the model on small inputs, one module for each part of the program.
mod Samples
mod Service
mod Configuration
mod Caches
mod Decisions
mod Keys
mod Requests
mod Metrics
mod Doubles
mod Concurrent
mod Meaning
mod Startup
mod Sharing
mod Lifecycle
