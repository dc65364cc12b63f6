-- ===== src/Sdk.antt =====
-- packages/sdk-react-native/src: the JavaScript part of the SDK, from the server to the native
-- module. update.ts is Update; SalvePush.ts is Facade, and its calls in any order are Calls.
pub mod Update
pub mod Facade
pub mod Calls
pub mod Laws
pub mod Sync
pub mod Published
pub mod Races
pub mod Tests
