-- ===== src/Underlay.antt =====
-- agent/underlay.py: the second veth pair of each network, by which its namespace reaches backends
-- on the chassis network, and the firewall rules around it.
pub mod Names
pub mod Allocator
pub mod Endpoints
pub mod Firewall
pub mod Locks
pub mod Provision
