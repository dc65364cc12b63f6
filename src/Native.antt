-- ===== src/Native.antt =====
-- packages/sdk-react-native/ios/HybridSalvePushNative.swift: the native module, which runs the
-- storage on a queue that does one job after the other.
pub mod Serial
pub mod Race
mod Tests
use salve_push.Base.{ℕ, ◌≡◌, Bool, true, false, List, [], ◌∷◌, ◌++◌, Bytes}
use salve_push.Storage.Disk.{Json, Disk}
use salve_push.Storage.Io.{Event, Io, World, ok, thrown}
use salve_push.Storage.Operations

-- What a method passes to the queue: an installation of the bytes that it has copied, or a
-- confirmation.
pub data Job : Type 0 where
  install : Bytes → Bytes → Job
  confirm : Job

-- A job that ended: the events of its calls, and whether its promise was resolved or rejected.
pub record Done : Type 0 where
  pub job : Job
  pub events : List Event
  pub resolved : Bool

module _ (J : Json) where
  abbrev pub run_job : Job → Io J (Unit {0})
  run_job (install release_id data') = Operations.install_update J release_id data'
  run_job confirm = Operations.confirm_boot J

  -- The disk, the buffers that JavaScript may change at any time, the queue and the jobs that ended.
  pub record Module : Type 0 where
    pub disk : Disk J
    pub buffers : ℕ → Bytes
    pub queue : List Job
    pub done : List Done

  abbrev pub enqueue : Job → Module → Module
  enqueue job s = record s { queue = s.queue ++ (job ∷ []) }

  -- `installUpdate`, which copies the buffer on the calling thread.
  unfoldable pub install_update : Bytes → ℕ → Module → Module
  install_update release_id buffer s = enqueue (install release_id (s.buffers buffer)) s

  unfoldable pub notify_app_ready : Module → Module
  notify_app_ready s = enqueue confirm s

  unfoldable pub get_current_release_id : Io J Bytes
  get_current_release_id = Operations.get_current_release_id J

  abbrev pub finished : Job → List Job → List Event → Bool → World J → Module → Module
  finished job rest events resolved w s = record s {
    disk = w.disk;
    queue = rest;
    done = s.done ++ (record { job = job; events = events; resolved = resolved } ∷ []);
  }

  -- Calls from JavaScript, its writes to buffers, and jobs that end, in any order. Where the process
  -- dies in a job, no step follows.
  pub data Step : Module → Module → Type 0 where
    installs :
        (release_id : Bytes) (buffer : ℕ) (s : Module) → Step s (install_update release_id buffer s)
    notifies : (s : Module) → Step s (notify_app_ready s)
    writes : (buffers : ℕ → Bytes) (s : Module) → Step s (record s { buffers = buffers })
    returns :
        (job : Job) (rest : List Job) (events : List Event) (w : World J) (s : Module)
        → s.queue ≡ job ∷ rest
        → run_job job (record { disk = s.disk; events = events }) ≡ (ok tt, w)
        → Step s (finished job rest events true w s)
    throws :
        (job : Job) (rest : List Job) (events : List Event) (w : World J) (s : Module)
        → s.queue ≡ job ∷ rest
        → run_job job (record { disk = s.disk; events = events }) ≡ (thrown, w)
        → Step s (finished job rest events false w s)

  pub data Reach (s : Module) : Module → Type 0 where
    here : Reach s s
    next : {t u : Module} → Reach s t → Step t u → Reach s u

  abbrev pub loaded : Disk J → (ℕ → Bytes) → Module
  loaded d buffers = record { disk = d; buffers = buffers; queue = []; done = [] }
