-- ===== src/Tests.antt =====
-- Runs of the definitions on small inputs, and instances of the theorems.
pub mod Table
pub mod Json
pub mod Store
pub mod Takeover
pub mod System
pub mod Transport
pub mod Flash
pub mod Broadcast
pub mod Board
pub mod Network
pub mod Keys
pub mod Targets
pub mod Protocol
