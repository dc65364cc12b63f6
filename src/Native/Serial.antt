-- ===== src/Native/Serial.antt =====
-- The jobs run one after the other, in the order of the calls.
use mathlib.Core.List.{append_assoc, append-nil}
use salve_push.Base.{ℕ, ◌≡◌, refl, sym, ap, ◌∙◌, Bool, true, false, List, [], ◌∷◌, ◌++◌, Bytes}
use salve_push.Storage.Disk.{Json, Disk}
use salve_push.Storage.Io.{Event, Result, World, ok, thrown}
use salve_push.Native.{
  Job, install, confirm, Done, run_job, Module, enqueue, finished, Step, installs, notifies, writes,
  returns, throws, Reach, here, next, loaded, install_update, notify_app_ready,
}

abbrev pub jobs : List Done → List Job
jobs [] = []
jobs (done ∷ rest) = done.job ∷ jobs rest

jobs-append : (xs ys : List Done) → jobs (xs ++ ys) ≡ jobs xs ++ jobs ys
jobs-append [] ys = refl
jobs-append (x ∷ xs) ys = ap (λ js. x.job ∷ js) (jobs-append xs ys)

module _ (J : Json) where
  -- How a job must end for its promise to be resolved, or to be rejected.
  abbrev pub answer : Bool → World J → Result (Unit {0}) × World J
  answer true w = (ok tt, w)
  answer false w = (thrown, w)

  -- From the first disk to the second, each job starts on the disk that the one before has left.
  abbrev pub Runs : List Done → Disk J → Disk J → Type 0
  Runs [] d e = e ≡ d
  Runs (done ∷ rest) d e =
      (w : World J) × (run_job J done.job (record { disk = d; events = done.events })
        ≡ answer done.resolved w)
      × Runs rest w.disk e

  Runs-append :
      (dones : List Done) (job : Job) (events : List Event) (resolved : Bool) (d e : Disk J)
      (w : World J)
      → Runs dones d e
      → run_job J job (record { disk = e; events = events }) ≡ answer resolved w
      → Runs (dones ++ (record { job = job; events = events; resolved = resolved } ∷ [])) d w.disk
  Runs-append [] job events resolved d e w same run =
      (w, ap (λ x. run_job J job (record { disk = x; events = events })) (sym same) ∙ run, refl)
  Runs-append (done ∷ rest) job events resolved d e w (v, first, runs) run =
      (v, first, Runs-append rest job events resolved v.disk e w runs run)

  -- What a step asks for: an installation of what the buffer held when it was called, or a
  -- confirmation.
  abbrev pub asked : {s t : Module J} → Step J s t → List Job
  asked (installs release_id buffer s) = install release_id (s.buffers buffer) ∷ []
  asked (notifies s) = confirm ∷ []
  asked (writes buffers s) = []
  asked (returns job rest events w s queued run) = []
  asked (throws job rest events w s queued run) = []

  -- All that was asked for, oldest first.
  abbrev pub calls : {s t : Module J} → Reach J s t → List Job
  calls here = []
  calls (next r step) = calls r ++ asked step

  abbrev IsSerial : Disk J → List Job → Module J → Type 0
  IsSerial d called s = (called ≡ jobs s.done ++ s.queue) × Runs s.done d s.disk

  enqueue-IsSerial :
      (d : Disk J) (called : List Job) (job : Job) (s : Module J)
      → IsSerial d called s
      → IsSerial d (called ++ (job ∷ [])) (enqueue J job s)
  enqueue-IsSerial d called job s (order, runs) =
      (ap (λ js. js ++ (job ∷ [])) order ∙ append_assoc (jobs s.done) s.queue (job ∷ []), runs)

  finished-IsSerial :
      (d : Disk J) (called : List Job) (job : Job) (rest : List Job) (events : List Event)
      (resolved : Bool) (w : World J) (s : Module J)
      → s.queue ≡ job ∷ rest
      → run_job J job (record { disk = s.disk; events = events }) ≡ answer resolved w
      → IsSerial d called s
      → IsSerial d (called ++ []) (finished J job rest events resolved w s)
  finished-IsSerial d called job rest events resolved w s queued run (order, runs) =
      let last : Done = record { job = job; events = events; resolved = resolved } in
      (
        append-nil called
            ∙ order
            ∙ ap (λ q. jobs s.done ++ q) queued
            ∙ sym (append_assoc (jobs s.done) (job ∷ []) rest)
            ∙ ap (λ js. js ++ rest) (sym (jobs-append s.done (last ∷ []))),
        Runs-append s.done job events resolved d s.disk w runs run,
      )

  Step-IsSerial :
      (d : Disk J) (called : List Job) {s t : Module J} (step : Step J s t)
      → IsSerial d called s
      → IsSerial d (called ++ asked step) t
  unfolding install_update notify_app_ready
  Step-IsSerial d called (installs release_id buffer s) h = enqueue-IsSerial d called _ s h
  Step-IsSerial d called (notifies s) h = enqueue-IsSerial d called _ s h
  Step-IsSerial d called (writes buffers s) (order, runs) = (append-nil called ∙ order, runs)
  Step-IsSerial d called (returns job rest events w s queued run) h =
      finished-IsSerial d called job rest events true w s queued run h
  Step-IsSerial d called (throws job rest events w s queued run) h =
      finished-IsSerial d called job rest events false w s queued run h

  -- However JavaScript calls the module and changes its buffers meanwhile: the jobs that ended and
  -- those that wait are those that the calls asked for, in their order, each installation with the
  -- bytes that its buffer held at its call, and each job that ended ran on the disk that the one
  -- before has left. This is of a process that lives.
  pub queue-IsSerial :
      (d : Disk J) (buffers : ℕ → Bytes) {s : Module J} (r : Reach J (loaded J d buffers) s)
      → (calls r ≡ jobs s.done ++ s.queue) × Runs s.done d s.disk
  queue-IsSerial d buffers here = (refl, refl)
  queue-IsSerial d buffers (next r step) =
      Step-IsSerial d (calls r) step (queue-IsSerial d buffers r)
