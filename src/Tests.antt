-- ===== src/Tests.antt =====
-- Runs of the modelled code on concrete inputs.
mod Texts
mod Caching
mod Responses
mod Balancing
mod Settings
mod Gates
mod Limits
mod Edges
mod Peers
mod Overlaps
mod Loads
mod Varying
mod Upstream
mod Orders
mod Starts
