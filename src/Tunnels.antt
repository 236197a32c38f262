-- ===== src/Tunnels.antt =====
-- apps/server/src/tunnel: public addresses, ownership, the repository of tunnels and its manager.
pub mod Context
pub mod PublicUrl
pub mod Repository
pub mod Manager
