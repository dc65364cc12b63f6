-- ===== src/CrashHandler/Handler/Ends.antt =====
-- How a crash ends.
use salve_push.Base.{ℕ, ℤ, pos, ◌≡◌, Option, none, some, List, [], ◌∷◌, ◌++◌}
use salve_push.Posix.Kernel.{Kernel}
use salve_push.Posix.Signals.{default_action}
use salve_push.CrashHandler.State.{
  Linkage, Call, Process, Outcome, returned, left, undefined, out_of_fuel, logged,
}
use salve_push.CrashHandler.Marker.Laws.{marked}
use salve_push.CrashHandler.Handler.Laws.{reraised}

abbrev pub to_list : Option Call → List Call
to_list none = []
to_list (some c) = c ∷ []

-- What a crash on signal `n` with the call `due` may end in: it returns to a pending signal with
-- its default action, or the one call that was due, made on the marked process, does not return.
abbrev pub IsHandled : Linkage → ℕ → Option Call → Process → Outcome (Unit {0}) → Type 0
IsHandled l n due p (returned _ q) =
    (q.calls ≡ p.calls ++ to_list due)
    × (q.globals ≡ p.globals)
    × (q.kernel.dispositions n ≡ default_action l.platform)
    × ((earlier : List ℤ) × (q.kernel.pending ≡ earlier ++ (pos n ∷ [])))
IsHandled l n due p (left q) = (c : Call) × (due ≡ some c) × (q ≡ logged c (marked (pos n) p))
IsHandled l n due p undefined = ⊥
IsHandled l n due p out_of_fuel = ⊥

-- The rest of a crash, once the call `c` came back with `result`.
abbrev after_call : Linkage → ℕ → Call → Process → Option Kernel → Outcome (Unit {0})
after_call l n c m none = left (logged c m)
after_call l n c m (some k) = returned tt (reraised l (pos n) (record (logged c m) { kernel = k }))
