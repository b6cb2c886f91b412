-- ===== src/Tests.antt =====
-- Worlds to try the model on, and each theorem at a concrete input.
mod Data
mod Core
mod Client
mod Tools
mod Commands
mod Responses
mod Settings
mod Attempts
mod Cluster
mod Healing
mod Bounds
mod Parts
mod Installs
