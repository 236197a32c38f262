-- ===== src/Security.antt =====
-- apps/server/src/security: admission of sockets to the gateway and of their messages.
pub mod Connections
pub mod Rates
pub mod Origins
pub mod Policy
