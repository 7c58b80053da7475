-- ===== src/Groups.antt =====
-- internal/groups: the device groups.
pub mod Names
pub mod Desired
pub mod Kit
pub mod Ledger
pub mod Draft
pub mod Plan
pub mod Assemble
pub mod Psk
pub mod Engine
pub mod Trunk
pub mod Examples
