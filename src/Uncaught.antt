-- ===== src/Uncaught.antt =====
-- The installers of the crash handlers and the handlers of uncaught errors, in
-- packages/sdk-react-native: ios/SalvePushCrashHandlerBridge.mm, and SalvePushCrashHandler.kt of
-- android/src/main/java/com/margelo/nitro/salvepush.
pub mod Installer
pub mod Handlers
pub mod Once
pub mod Install
pub mod Effect
mod Tests
