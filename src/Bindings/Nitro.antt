-- ===== src/Bindings/Nitro.antt =====
-- What the bindings rely on of NitroModules and fbjni, which are not part of the repository:
-- promises in C++ and in Java, as operations and laws.
-- On iOS a Swift promise has the place of the Java promise, and a Swift error that of the throwable.
pub mod Instance
use salve_push.Base.{◌≡◌, Option, none, some}

-- The state of a `Promise<void>`.
pub data Status (E : Type 0) : Type 0 where
  pending : Status E
  resolved : Status E
  rejected : E → Status E

-- A listener captures the C++ promise that it settles. `settle` is what the Kotlin code does in
-- the end: `none` resolves the Java promise, and a throwable rejects it.
pub record Promises : Type 1 where
  pub World : Type 0
  pub Promise : Type 0
  pub JPromise : Type 0
  pub Throwable : Type 0
  pub Exception : Type 0
  pub jni_exception : Throwable → Exception
  pub create : World → Promise × World
  pub resolve : Promise → World → World
  pub reject : Promise → Exception → World → World
  pub status : Promise → World → Status Exception
  pub outcome : JPromise → World → Option (Option Throwable)
  pub settle : JPromise → Option Throwable → World → World
  pub add_on_resolved_listener : JPromise → Promise → World → World
  pub add_on_rejected_listener : JPromise → Promise → World → World

-- The listeners that the bindings add: the bodies of the two lambdas.
module _ (N : Promises) where
  open N use {World, Promise, JPromise, Throwable, Exception, resolve, reject, jni_exception}

  abbrev pub on_resolved : Promise → World → World
  on_resolved promise = resolve promise

  abbrev pub on_rejected : Promise → Throwable → World → World
  on_rejected promise throwable = reject promise (jni_exception throwable)

  -- A new promise is pending, and is settled by the first call. A Java promise keeps its outcome. A
  -- listener that is added to a settled Java promise runs at once if it fits the outcome, and never
  -- if not; one that is added before runs when the promise is settled, as if it were added then.
  pub record IsLawful : Type 0 where
    pub create-pending : (w : World) → N.status (N.create w).0 (N.create w).1 ≡ pending
    pub status-resolve :
        (p : Promise) (w : World) → N.status p w ≡ pending → N.status p (N.resolve p w) ≡ resolved
    pub status-reject :
        (p : Promise) (e : Exception) (w : World)
        → N.status p w ≡ pending
        → N.status p (N.reject p e w) ≡ rejected e
    pub outcome-create : (j : JPromise) (w : World) → N.outcome j (N.create w).1 ≡ N.outcome j w
    pub outcome-resolve :
        (j : JPromise) (p : Promise) (w : World) → N.outcome j (N.resolve p w) ≡ N.outcome j w
    pub outcome-on_resolved :
        (j : JPromise) (p : Promise) (w : World)
        → N.outcome j (N.add_on_resolved_listener j p w) ≡ N.outcome j w
    pub outcome-settle :
        (j : JPromise) (o : Option Throwable) (w : World)
        → N.outcome j w ≡ none
        → N.outcome j (N.settle j o w) ≡ some o
    pub status-settle_unheard :
        (j : JPromise) (o : Option Throwable) (w : World)
        → N.outcome j w ≡ none
        → N.status (N.create w).0 (N.settle j o (N.create w).1) ≡ pending
    pub on_resolved-resolved :
        (j : JPromise) (p : Promise) (w : World)
        → N.outcome j w ≡ some none
        → N.add_on_resolved_listener j p w ≡ on_resolved p w
    pub on_resolved-rejected :
        (j : JPromise) (p : Promise) (t : Throwable) (w : World)
        → N.outcome j w ≡ some (some t)
        → N.add_on_resolved_listener j p w ≡ w
    pub on_rejected-resolved :
        (j : JPromise) (p : Promise) (w : World)
        → N.outcome j w ≡ some none
        → N.add_on_rejected_listener j p w ≡ w
    pub on_rejected-rejected :
        (j : JPromise) (p : Promise) (t : Throwable) (w : World)
        → N.outcome j w ≡ some (some t)
        → N.add_on_rejected_listener j p w ≡ on_rejected p t w
    pub settle-on_resolved :
        (j : JPromise) (p : Promise) (o : Option Throwable) (w : World)
        → N.outcome j w ≡ none
        → N.settle j o (N.add_on_resolved_listener j p w)
          ≡ N.add_on_resolved_listener j p (N.settle j o w)
    pub settle-on_rejected :
        (j : JPromise) (p : Promise) (o : Option Throwable) (w : World)
        → N.outcome j w ≡ none
        → N.settle j o (N.add_on_rejected_listener j p w)
          ≡ N.add_on_rejected_listener j p (N.settle j o w)
    pub status-on_resolved_unsettled :
        (j : JPromise) (p q : Promise) (w : World)
        → N.outcome j w ≡ none
        → N.status q (N.add_on_resolved_listener j p w) ≡ N.status q w
    pub status-on_rejected_unsettled :
        (j : JPromise) (p q : Promise) (w : World)
        → N.outcome j w ≡ none
        → N.status q (N.add_on_rejected_listener j p w) ≡ N.status q w
