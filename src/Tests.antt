-- ===== src/Tests.antt =====
-- Small runs of the models, and the theorems at concrete inputs.
mod Samples
mod Configs
mod Scaling
mod Ticks
mod Peers
mod Containers
mod Requests
mod Settings
mod Forges
mod Listings
mod Stores
mod Controls
