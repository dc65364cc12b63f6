-- ===== src/Storage/Holds.antt =====
-- Postconditions of Swift code on the disk: one for a result, and one for when it throws or dies.
use salve_push.Base.{◌≡◌, refl, Option, none, some, List, [], ◌∷◌}
use salve_push.Storage.Disk.{Json, Disk}
use salve_push.Storage.Io.{
  Event, works, fails, dies, World, Result, ok, thrown, died, Io, after, ◌>>=◌, stored, or_throw,
  on_events, change, read, caught, ignored, try_optional, try_ignored,
}

module _ {J : Json} where
  abbrev pub Holds :
      {A : Type 0} → (A → Disk J → Type 0) → (Disk J → Type 0) → Result A × World J → Type 0
  Holds Q R (ok a, w) = Q a w.disk
  Holds Q R (thrown, w) = R w.disk
  Holds Q R (died, w) = R w.disk

  Holds-after :
      {A B : Type 0} (Q : A → Disk J → Type 0) (S : B → Disk J → Type 0) (R : Disk J → Type 0)
      (r : Result A × World J) (f : A → Io J B)
      → Holds Q R r
      → ((a : A) (v : World J) → Q a v.disk → Holds S R (f a v))
      → Holds S R (after r f)
  Holds-after Q S R (ok a, w) f h next = next a w h
  Holds-after Q S R (thrown, w) f h next = h
  Holds-after Q S R (died, w) f h next = h

  -- The rest may rely on what the first part gives.
  pub Holds->>= :
      {A B : Type 0} (Q : A → Disk J → Type 0) (S : B → Disk J → Type 0) (R : Disk J → Type 0)
      (m : Io J A) (f : A → Io J B) (w : World J)
      → Holds Q R (m w)
      → ((a : A) (v : World J) → Q a v.disk → Holds S R (f a v))
      → Holds S R ((m >>= f) w)
  Holds->>= Q S R m f w h next = Holds-after Q S R (m w) f h next

  pub Holds-weaken :
      {A : Type 0} (Q S : A → Disk J → Type 0) (R T : Disk J → Type 0) (r : Result A × World J)
      → ((a : A) (d : Disk J) → Q a d → S a d)
      → ((d : Disk J) → R d → T d)
      → Holds Q R r
      → Holds S T r
  Holds-weaken Q S R T (ok a, w) f g h = f a w.disk h
  Holds-weaken Q S R T (thrown, w) f g h = g w.disk h
  Holds-weaken Q S R T (died, w) f g h = g w.disk h

  -- What a call gives, if it does not throw.
  abbrev pub Gives : (Disk J → Type 0) → Option (Disk J) → Type 0
  Gives P none = Unit {0}
  Gives P (some d) = P d

  pub Gives-and :
      (P Q : Disk J → Type 0) (o : Option (Disk J))
      → Gives P o
      → Gives Q o
      → Gives (λ d. P d × Q d) o
  Gives-and P Q none p q = tt
  Gives-and P Q (some d) p q = (p, q)

  pub Gives-weaken :
      (P Q : Disk J → Type 0) (o : Option (Disk J))
      → ((d : Disk J) → P d → Q d)
      → Gives P o
      → Gives Q o
  Gives-weaken P Q none f p = tt
  Gives-weaken P Q (some d) f p = f d p

  Holds-stored :
      (P R : Disk J → Type 0) (o : Option (Disk J)) (w : World J)
      → R w.disk
      → Gives P o
      → Holds (λ _. P) R (stored o w)
  Holds-stored P R none w h next = h
  Holds-stored P R (some d) w h next = next

  change_events :
      (P R : Disk J → Type 0) (f : Disk J → Option (Disk J)) (events : List Event) (w : World J)
      → R w.disk
      → Gives P (f w.disk)
      → Holds (λ _. P) R (on_events events (λ v. stored (f v.disk) v) w)
  change_events P R f [] w h next = Holds-stored P R (f w.disk) w h next
  change_events P R f (works ∷ rest) w h next =
      Holds-stored P R (f w.disk) (record w { events = rest }) h next
  change_events P R f (fails ∷ rest) w h next = h
  change_events P R f (dies ∷ rest) w h next = h

  -- A change is made whole or not at all.
  pub Holds-change :
      (P R : Disk J → Type 0) (f : Disk J → Option (Disk J)) (w : World J)
      → R w.disk
      → Gives P (f w.disk)
      → Holds (λ _. P) R (change f w)
  Holds-change P R f w h next = change_events P R f w.events w h next

  Holds-or_throw :
      {A : Type 0} (Q : A → Disk J → Type 0) (R : Disk J → Type 0) (o : Option A) (w : World J)
      → R w.disk
      → ((a : A) → o ≡ some a → Q a w.disk)
      → Holds Q R (or_throw o w)
  Holds-or_throw Q R none w h next = h
  Holds-or_throw Q R (some a) w h next = next a refl

  read_events :
      {A : Type 0} (Q : A → Disk J → Type 0) (R : Disk J → Type 0) (f : Disk J → Option A)
      (events : List Event) (w : World J)
      → R w.disk
      → ((a : A) → f w.disk ≡ some a → Q a w.disk)
      → Holds Q R (on_events events (λ v. or_throw (f v.disk) v) w)
  read_events Q R f [] w h next = Holds-or_throw Q R (f w.disk) w h next
  read_events Q R f (works ∷ rest) w h next =
      Holds-or_throw Q R (f w.disk) (record w { events = rest }) h next
  read_events Q R f (fails ∷ rest) w h next = h
  read_events Q R f (dies ∷ rest) w h next = h

  -- A read leaves the disk as it is.
  pub Holds-read :
      {A : Type 0} (Q : A → Disk J → Type 0) (R : Disk J → Type 0) (f : Disk J → Option A)
      (w : World J)
      → R w.disk
      → ((a : A) → f w.disk ≡ some a → Q a w.disk)
      → Holds Q R (read f w)
  Holds-read Q R f w h next = read_events Q R f w.events w h next

  Holds-caught :
      {A : Type 0} (Q : A → Disk J → Type 0) (R : Disk J → Type 0) (S : Option A → Disk J → Type 0)
      (r : Result A × World J)
      → ((a : A) (d : Disk J) → Q a d → S (some a) d)
      → ((d : Disk J) → R d → S none d)
      → Holds Q R r
      → Holds S R (caught r)
  Holds-caught Q R S (ok a, w) f g h = f a w.disk h
  Holds-caught Q R S (thrown, w) f g h = g w.disk h
  Holds-caught Q R S (died, w) f g h = h

  -- `try?` goes on where its operand throws.
  pub Holds-try_optional :
      {A : Type 0} (Q : A → Disk J → Type 0) (R : Disk J → Type 0) (S : Option A → Disk J → Type 0)
      (m : Io J A) (w : World J)
      → ((a : A) (d : Disk J) → Q a d → S (some a) d)
      → ((d : Disk J) → R d → S none d)
      → Holds Q R (m w)
      → Holds S R (try_optional m w)
  Holds-try_optional Q R S m w f g h = Holds-caught Q R S (m w) f g h

  Holds-ignored :
      (P R : Disk J → Type 0) (r : Result (Unit {0}) × World J)
      → ((d : Disk J) → R d → P d)
      → Holds (λ _. P) R r
      → Holds (λ _. P) R (ignored r)
  Holds-ignored P R (ok a, w) f h = h
  Holds-ignored P R (thrown, w) f h = f w.disk h
  Holds-ignored P R (died, w) f h = h

  -- A change whose failure is ignored keeps what it keeps either way.
  pub Holds-try_change :
      (P : Disk J → Type 0) (f : Disk J → Option (Disk J)) (w : World J)
      → P w.disk
      → Gives P (f w.disk)
      → Holds (λ _. P) P (try_ignored (change f) w)
  Holds-try_change P f w h next =
      Holds-ignored P P (change f w) (λ d p. p) (Holds-change P P f w h next)
