-- ===== src/Posix/Signals/Laws.antt =====
-- The actions of a signal that can be caught are read and replaced one by one.
use salve_push.Base.{ℕ, pos, ◌≡◌, true, some, ◌==◌, arith, if◌then◌else◌}
use salve_push.Posix.Kernel.{SigAction, Kernel}
use salve_push.Posix.Signals.{Platform, is_catchable, sigaction_get, sigaction_set}

pub sigaction_get-catchable :
    (s : Platform) (n : ℕ) (k : Kernel)
    → is_catchable s (pos n) ≡ true
    → sigaction_get s (pos n) k ≡ some (k.dispositions n)
unfolding sigaction_get
sigaction_get-catchable s n k h = ground arith

pub sigaction_set-catchable :
    (s : Platform) (n : ℕ) (action : SigAction) (k : Kernel)
    → is_catchable s (pos n) ≡ true
    → sigaction_set s (pos n) action k
      ≡ record k { dispositions = λ m. if m == n then action else k.dispositions m }
unfolding sigaction_set
sigaction_set-catchable s n action k h = rw h
