-- ===== src/Bindings/Android/Forward.antt =====
-- JHybridSalvePushNativeSpec.cpp: the C++ promise that follows a Java promise.
use salve_push.Base.{◌≡◌, ap, ◌∙◌, Option, none, some}
use salve_push.Bindings.Nitro.{Status, pending, resolved, rejected, Promises, IsLawful}

module _ (N : Promises) where
  open N use {World, Promise, JPromise, Throwable, Exception}

  -- The lambda behind `return [&]() { ... }()`, the same in `installUpdate` and `notifyAppReady`.
  unfoldable pub forward : JPromise → World → Promise × World
  forward result w =
      let (promise, w1) = N.create w in
      let w2 = N.add_on_resolved_listener result promise w1 in
      let w3 = N.add_on_rejected_listener result promise w2 in (promise, w3)

  -- The status that the outcome of a Java promise asks for.
  abbrev pub status_of : Option Throwable → Status Exception
  status_of none = resolved
  status_of (some throwable) = rejected (N.jni_exception throwable)

  -- A C++ promise `p` after a promise `j` of the other side was forwarded to it: it has the outcome
  -- of `j`, or it is pending and gets the outcome `later` once `j` is settled with it.
  abbrev pub Mirrors :
      Option (Option Throwable) → JPromise → Promise → Option Throwable → World → Type 0
  Mirrors (some o) j p later w = N.status p w ≡ status_of o
  Mirrors none j p later w =
      (N.status p w ≡ pending) × (N.status p (N.settle j later w) ≡ status_of later)

  module _ (L : IsLawful N) where
    -- Both listeners, added to a promise with the outcome `o`, settle a pending promise by it.
    settled_listeners :
        (j : JPromise) (p : Promise) (o : Option Throwable) (w : World)
        → N.outcome j w ≡ some o
        → N.status p w ≡ pending
        → N.status p (N.add_on_rejected_listener j p (N.add_on_resolved_listener j p w))
          ≡ status_of o
    settled_listeners j p none w out waits =
        ap (λ v. N.status p (N.add_on_rejected_listener j p v)) (L.on_resolved-resolved j p w out)
        ∙ ap (N.status p)
            (L.on_rejected-resolved j p (N.resolve p w) (L.outcome-resolve j p w ∙ out))
        ∙ L.status-resolve p w waits
    settled_listeners j p (some t) w out waits =
        ap (λ v. N.status p (N.add_on_rejected_listener j p v)) (L.on_resolved-rejected j p t w out)
        ∙ ap (N.status p) (L.on_rejected-rejected j p t w out)
        ∙ L.status-reject p (N.jni_exception t) w waits

    -- If the Java promise is settled when the C++ promise is made, the C++ promise has its outcome
    -- at once.
    forward-settled :
        (j : JPromise) (o : Option Throwable) (w : World)
        → N.outcome j w ≡ some o
        → let (p, w') = forward j w in N.status p w' ≡ status_of o
    unfolding forward
    forward-settled j o w out =
        settled_listeners j (N.create w).0 o (N.create w).1 (L.outcome-create j w ∙ out)
          (L.create-pending w)

    -- If it is not, the C++ promise is pending, and has its outcome once the Java promise is
    -- settled.
    forward-unsettled :
        (j : JPromise) (o : Option Throwable) (w : World)
        → N.outcome j w ≡ none
        → let (p, w') = forward j w in
          (N.status p w' ≡ pending) × (N.status p (N.settle j o w') ≡ status_of o)
    unfolding forward
    forward-unsettled j o w waits =
        let p = (N.create w).0 in
        let w1 = (N.create w).1 in
        let w2 = N.add_on_resolved_listener j p w1 in
        let waits1 : N.outcome j w1 ≡ none = L.outcome-create j w ∙ waits in
        let waits2 : N.outcome j w2 ≡ none = L.outcome-on_resolved j p w1 ∙ waits1 in
        (
          L.status-on_rejected_unsettled j p p w2 waits2
              ∙ L.status-on_resolved_unsettled j p p w1 waits1
              ∙ L.create-pending w,
          ap (N.status p) (
                L.settle-on_rejected j p o w2 waits2
                ∙ ap (N.add_on_rejected_listener j p) (L.settle-on_resolved j p o w1 waits1))
              ∙ settled_listeners j p o (N.settle j o w1) (L.outcome-settle j o w1 waits1)
                  (L.status-settle_unheard j o w waits),
        )

    pub forward-Mirrors :
        (later : Option Throwable) (j : JPromise) (w : World) (out : Option (Option Throwable))
        → N.outcome j w ≡ out
        → let (p, w') = forward j w in Mirrors out j p later w'
    forward-Mirrors later j w (some o) e = forward-settled j o w e
    forward-Mirrors later j w none e = forward-unsettled j later w e
