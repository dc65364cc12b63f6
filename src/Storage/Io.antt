-- ===== src/Storage/Io.antt =====
-- Swift code that works on the disk: it may throw, and the process may die between two calls.
use salve_push.Base.{Option, none, some, List, [], ◌∷◌}
use salve_push.Storage.Disk.{Json, Disk}

-- What happens at a call of Foundation: it works, it fails and changes nothing, or the process dies
-- before it.
pub data Event : Type 0 where
  works fails dies : Event

-- The disk, and what happens at the calls that follow; past the end of the list calls work.
pub record World (J : Json) : Type 0 where
  pub disk : Disk J
  pub events : List Event

pub data Result (A : Type 0) : Type 0 where
  ok : A → Result A
  thrown : Result A
  died : Result A

abbrev pub Io : Json → Type 0 → Type 0
Io J A = World J → Result A × World J

module _ {J : Json} where
  abbrev pub after : {A B : Type 0} → Result A × World J → (A → Io J B) → Result B × World J
  after (ok a, w) f = f a w
  after (thrown, w) f = (thrown, w)
  after (died, w) f = (died, w)

  infixl 5 ◌>>=◌ ◌>>◌
  abbrev pub ◌>>=◌ : {A B : Type 0} → Io J A → (A → Io J B) → Io J B
  ◌>>=◌ m f w = after (m w) f

  abbrev pub ◌>>◌ : {B : Type 0} → Io J (Unit {0}) → Io J B → Io J B
  m >> k = m >>= λ _. k

  abbrev pub pure : {A : Type 0} → A → Io J A
  pure a w = (ok a, w)

  -- What a test such as `fileExists` reads; it cannot fail.
  abbrev pub gets : {A : Type 0} → (Disk J → A) → Io J A
  gets f w = (ok (f w.disk), w)

  abbrev pub or_throw : {A : Type 0} → Option A → World J → Result A × World J
  or_throw none w = (thrown, w)
  or_throw (some a) w = (ok a, w)

  abbrev pub at_event :
      {A : Type 0} → Event → (World J → Result A × World J) → World J → Result A × World J
  at_event works m w = m w
  at_event fails m w = (thrown, w)
  at_event dies m w = (died, w)

  abbrev pub on_events : {A : Type 0} → List Event → Io J A → Io J A
  on_events [] m w = m w
  on_events (e ∷ rest) m w = at_event e m (record w { events = rest })

  -- The next event decides.
  abbrev pub call : {A : Type 0} → Io J A → Io J A
  call m w = on_events w.events m w

  -- A call that changes the disk.
  abbrev pub stored : Option (Disk J) → World J → Result (Unit {0}) × World J
  stored none w = (thrown, w)
  stored (some d) w = (ok tt, record w { disk = d })

  abbrev pub change : (Disk J → Option (Disk J)) → Io J (Unit {0})
  change f = call (λ w. stored (f w.disk) w)

  -- A call that reads the disk.
  abbrev pub read : {A : Type 0} → (Disk J → Option A) → Io J A
  read f = call (λ w. or_throw (f w.disk) w)

  abbrev pub caught : {A : Type 0} → Result A × World J → Result (Option A) × World J
  caught (ok a, w) = (ok (some a), w)
  caught (thrown, w) = (ok none, w)
  caught (died, w) = (died, w)

  -- `try?`
  abbrev pub try_optional : {A : Type 0} → Io J A → Io J (Option A)
  try_optional m w = caught (m w)

  abbrev pub ignored : Result (Unit {0}) × World J → Result (Unit {0}) × World J
  ignored (ok a, w) = (ok tt, w)
  ignored (thrown, w) = (ok tt, w)
  ignored (died, w) = (died, w)

  -- `try?` or a Boolean result that is not used.
  abbrev pub try_ignored : Io J (Unit {0}) → Io J (Unit {0})
  try_ignored m w = ignored (m w)
