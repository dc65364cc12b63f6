-- ===== src/CrashHandler.antt =====
-- packages/sdk-react-native/cpp/salve_push_crash_handler.cpp: the signal handlers that leave a
-- crash marker for the next launch.
pub mod State
pub mod Marker
pub mod Handler
pub mod Install
pub mod Crash
pub mod Bridge
mod Tests
