-- ===== src/Tests.antt =====
-- Runs of the handlers on a small hub, and each theorem applied to one.
pub mod Sample
pub mod RolesTests
pub mod ModerationTests
pub mod ChannelsTests
pub mod WireTests
pub mod PairingTests
pub mod WorkTests
pub mod FriendsTests
pub mod AuthTests
pub mod IdentityTests
pub mod RecoveryTests
pub mod BotCheckTests
pub mod FarmTests
pub mod SeedTests
