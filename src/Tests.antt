-- ===== src/Tests.antt =====
-- The theorems at concrete inputs.
mod Paths
mod Sets
mod Requests
mod Usage
mod Service
mod Agents
mod Permission
mod Bridge
mod Late
mod Shown
mod Client
mod Message
mod Search
