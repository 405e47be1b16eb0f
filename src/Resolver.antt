-- ===== src/Resolver.antt =====
-- src/resolver: resolving packages to a graph.
pub mod Model
pub mod Overrides
pub mod Placement
pub mod Platform
pub mod Peer
