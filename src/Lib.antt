-- ===== src/Lib.antt =====
-- Salve Push: over-the-air releases for React Native applications. A device downloads a signed
-- release, installs it, and boots it; if it crashes before the application confirms the boot, the
-- next launch goes back to the release before. This library models the C++ of the SDK, the two
-- storages of releases that read what its crash handler writes, the native modules over them, the
-- calls of the SDK in TypeScript, the protocol by which releases are signed, the command line client
-- that signs and uploads them, and the server that publishes them.
--
-- Parts and files:
--
-- Posix (Posix/Kernel, Files, Format, Signals) is what the crash handler needs of its platform:
-- open, write, close, sigaction, signal, raise and snprintf, as functions on one record, `Kernel`,
-- with the constants of Android's and Apple's headers. A file that cannot be opened, a full table of
-- descriptors and a device that takes only part of a write are all among its states.
--
-- CrashHandler is packages/sdk-react-native/cpp/salve_push_crash_handler.cpp.
--   State: the globals and the process around them. An operation is a function from a process to an
--     `Outcome`: it returns, a handler of others keeps control, it does what C++ leaves undefined
--     (a read beyond a buffer, a write beyond the array), or it exceeds the bound on nested calls.
--   Marker: isMounted and writeCrashMarker. Marker/Text has the text of the marker and a reader.
--   Handler: chainToPreviousHandler and handleSignal. The handlers of others are a parameter: each
--     call either never returns or changes the system in any way.
--   Install: salve_push_install_crash_handlers.
--   Crash: an installation followed by a crash.
--   Bridge: packages/sdk-react-native/android/src/main/cpp/salve_push_crash_bridge.cpp.
--
-- Storage is packages/sdk-react-native/ios/SalvePushStorage.swift, with SalvePushState.swift.
--   Releases and Disk: the files under the base directory, and Foundation's calls on them; the JSON
--     coders are a parameter. A release id is the name of one directory.
--   Io: Swift code on the disk. A list of events says of each call whether it works, fails without
--     an effect, or is not reached since the process dies. Holds: postconditions for all of these.
--   Operations: installUpdate, confirmBoot, resolveBundlePath, the rollbacks and the pruning.
--   Sound, Safe, Install, Launch: the invariant under all events. Pruned, Calm, Placed: what the
--     operations do where every call works. Recovery and Scenarios: crashes and launches in a row,
--     where a crash leaves the text that CrashHandler/Marker writes. EndToEnd joins the two parts:
--     the file that the signal handler leaves is the one that the next launch reads. Lifecycle: any
--     sequence of these steps, and loops of crashes.
--   View: what the files of a disk mean, and what each operation makes of that.
--   Android is the Kotlin storage, SalvePushStorage.kt and SalvePushState.kt of
--     packages/sdk-react-native/android/src/main/java/com/margelo/nitro/salvepush, on the same disk:
--     State its JSON over org.json as a parameter, Same and Agree its agreement with the Swift
--     storage, with the same JSON coders and with those of each platform, Unsound what a rename that fails does to it, and Thrown what a launch does that cannot write.
--   Quiet and Resolver: SalvePushBundleResolver.swift and .kt, by which the app gets its bundle.
--   Boots: an installation and the launch behind it. Forgotten: a confirmation that cannot read.
--
-- Native is packages/sdk-react-native/ios/HybridSalvePushNative.swift: calls from JavaScript, the
-- queue that runs the storage, and jobs that end, as steps. Serial says what the queue does. Race is
-- HybridSalvePushNative.kt of the Kotlin package above, which has no queue: `confirmBoot` is cut at
-- the read of the state, and an installation runs in between.
--
-- Protocol is packages/protocol/src/signing.ts: the canonical message of a release, its signature
-- and keys in base64. The cryptographic libraries and the runtime are a parameter, `Runtime`, in
-- which a call that throws gives none. Cli is packages/cli/src/release.ts, which signs and uploads,
-- and Cli/Keys is packages/cli/src/keys.ts with the command `release` of index.ts: the key file, with
-- reads and writes that may fail.
--
-- Sdk is packages/sdk-react-native/src, the part in TypeScript.
--   Update: update.ts and types.ts. Facade: SalvePush.ts, each call cut at its `await`. Calls: the
--     calls in any order as steps of a system of variables, waiting downloads and native calls.
--   Sync: `sync` in one go. Published: from the command line client to the device. Races: a download
--     that finishes during an installation.
--
-- Bindings is packages/sdk-react-native/nitrogen/generated, and cpp-adapter.cpp of
-- packages/sdk-react-native/android/src/main/cpp: the way from JavaScript to Kotlin and to Swift.
--   Android: android/c++/JHybridSalvePushNativeSpec, android/salvepushOnLoad.cpp,
--     shared/c++/HybridSalvePushNativeSpec.cpp and JNI_OnLoad. Android/Lifetime has the constructor
--     and destructor of android/c++/JHybridSalvePushNativeSpec.hpp.
--   Apple: ios/c++/HybridSalvePushNativeSpecSwift.hpp and ios/SalvePushNative-Swift-Cxx-Bridge,
--     whose closures are in Apple/Closures. Apple/Swift is the Swift class of
--     ios/swift/HybridSalvePushNativeSpec_cxx.swift over an implementation of the protocol,
--     Apple/Calls the way through both classes, and Apple/Lifetime the references that keep a Swift
--     object and its C++ part alive.
--   Dispatch: the abstract class of shared/c++/HybridSalvePushNativeSpec.hpp and the objects of the
--     two platforms, as calls by name from JavaScript reach them.
--   Nitro and Thrown: NitroModules and fbjni, as records of operations with laws as hypotheses;
--     Nitro/Instance is a concrete one that has the laws.
--
-- Uncaught is ios/SalvePushCrashHandlerBridge.mm and, of the Kotlin package named above,
-- SalvePushCrashHandler.kt, both in packages/sdk-react-native: Installer the flag that keeps the
-- native handlers from being installed twice, Handlers the handlers of uncaught errors, Install the
-- whole installations, Once and Effect what several of them do together.
--
-- Server is server/internal/releases/releases.go: the service on a table of releases and a storage
-- of bundles. Each SQL query is a function on the table; which calls fail is an argument, and an
-- INSERT or UPDATE may also take effect while its answer is lost. Stored is
-- the invariant of creations and publications, Offers the list that devices are given. Http is
-- server/internal/api/releases.go and updates.go, with forms and queries as net/http gives them and
-- `strconv.Atoi` written out: Upload joins it to the command line client, Answers says what the
-- answer to an upload says of the table, Rows what the table holds, Offered what devices see of
-- uploads and publications. Migrate is `Migrate` of server/internal/database/database.go, and
-- Migrate/Resume runs of it that are interrupted. Local is server/internal/storage/local.go: keys,
-- and files below the base directory; Local/Refines says that they stand for the blobs of the service.
--
-- Delivery is what lies between Cli, Server and Sdk: the handler handleBundle of
-- server/internal/api/updates.go, and toReleaseMetadata and the input of handleCreate of releases.go
-- beside it. Delivered joins all three, and Booted adds the storage of the device.
--
-- Bounds and fuel: path buffers have 512 bytes with their NUL, the text buffer 256, the array of
-- stored actions 32 entries. `handle_signal` takes a number that bounds how deep it calls itself
-- through a stored action; one is enough unless its own action is stored. `decimal` takes one round
-- per unit of its argument, which is more than its digits need.
--
-- Not modelled: a signal that arrives inside another handler on a second thread, `errno`, and the
-- order in which writes reach the device; a removal of a directory is one step, and so is each call
-- of `File` or `FileManager`. Of the Kotlin module only the one interleaving of two coroutines is
-- modelled. The parsing of arguments and the output of the command line client, the transport of
-- HTTP, the storage of the server on S3, `Delete` and `Exists`, its configuration, and the routes
-- that answer a constant are not modelled, since they pass values on to libraries.
pub mod Base
pub mod Posix
pub mod CrashHandler
pub mod Bindings
pub mod Storage
pub mod Native
pub mod Protocol
pub mod Uncaught
pub mod Sdk
pub mod Cli
pub mod Server
pub mod Delivery
