-- ===== src/Bindings.antt =====
-- packages/sdk-react-native/nitrogen/generated: the C++ between JavaScript and the Kotlin and Swift
-- implementations of `SalvePushNative`.
pub mod Thrown
pub mod Nitro
pub mod Android
pub mod Apple
pub mod Dispatch
mod Tests
