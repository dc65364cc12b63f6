-- ===== src/Storage.antt =====
-- packages/sdk-react-native/ios/SalvePushStorage.swift and SalvePushState.swift: the releases that
-- are installed on a device, and which of them the next launch boots.
pub mod Releases
pub mod Disk
pub mod Io
pub mod Holds
pub mod Operations
pub mod Sound
pub mod Safe
pub mod Pruned
pub mod Calm
pub mod Placed
pub mod Recovery
pub mod View
pub mod Scenarios
pub mod Android
pub mod Tests
pub mod Lifecycle
pub mod EndToEnd
pub mod Install
pub mod Launch
pub mod Quiet
pub mod Resolver
pub mod Boots
pub mod Forgotten
