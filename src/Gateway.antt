-- ===== src/Gateway.antt =====
-- internal/gateway: the parts of the node that hold connections.
pub mod Usermap
pub mod Budget
pub mod Push
