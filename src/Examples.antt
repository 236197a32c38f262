-- ===== src/Examples.antt =====
-- The theorems at concrete inputs, and tests of the definitions.
pub mod Security
pub mod Tunnels
pub mod Exchanges
pub mod Heartbeat
pub mod EventBus
pub mod Protocol
pub mod Sessions
pub mod Gateway
pub mod Client
pub mod Transfer
pub mod Access
pub mod Mapping
