-- ===== src/Storage/Sound.antt =====
-- A sound disk: the releases that the state names have a bundle. Every call keeps it so.
use mathlib.Core.Path.{subst}
use salve_push.Base.{◌≡◌, ◌≢◌, refl, sym, ap, ◌∙◌, true, Option, none, some, Bytes}
use salve_push.Storage.Releases.{Release, find, find-put_self, find-put_ne}
use salve_push.Storage.Disk.{
  Json, Disk, SalvePushState, bundle_of, is_some, bundle_exists, move_temp, with_release, moved,
  temp_moved,
}
use salve_push.Storage.Holds.{Gives}
use salve_push.Storage.Operations.{decoded}

module _ {J : Json} where
  -- The state that the next launch reads.
  abbrev pub state_of : Disk J → SalvePushState
  state_of d = decoded J d.state_text

  abbrev pub HasBundle : Option Bytes → Disk J → Type 0
  HasBundle none d = Unit {0}
  HasBundle (some id) d = bundle_exists id d ≡ true

  abbrev pub Names : SalvePushState → Disk J → Type 0
  Names s d = HasBundle s.current_release_id d × HasBundle s.previous_release_id d

  -- The current release and the one before have their bundles.
  abbrev pub IsSound : Disk J → Type 0
  IsSound d = Names (state_of d) d

  -- Another state and other markers do not change which bundles there are.
  pub same_releases-HasBundle :
      (d d' : Disk J) (o : Option Bytes) → d'.releases ≡ d.releases → HasBundle o d → HasBundle o d'
  same_releases-HasBundle d d' none e h = h
  same_releases-HasBundle d d' (some p) e h = ap (λ rs. is_some (bundle_of (find p rs))) e ∙ h

  -- Only the release `id` differs, and no other file.
  pub record Elsewhere (id : Bytes) (d d' : Disk J) : Type 0 where
    pub same_state : d'.state_text ≡ d.state_text
    pub same_others : (p : Bytes) → p ≢ id → find p d'.releases ≡ find p d.releases

  -- A call on one release's directory leaves all others alone.
  pub with_release-Elsewhere :
      (id : Bytes) (d : Disk J) (o : Option Release) → Gives (Elsewhere id d) (with_release id d o)
  with_release-Elsewhere id d none = tt
  with_release-Elsewhere id d (some r) = record {
    same_state = refl;
    same_others = λ p ne. find-put_ne id p r d.releases ne;
  }

  -- A bundle that was moved is there.
  moved_bundle :
      (id : Bytes) (d : Disk J) (temp bundle : Option Bytes)
      → Gives (λ d'. bundle_exists id d' ≡ true) (with_release id d (moved temp bundle))
  moved_bundle id d (some bytes) none = rw (find-put_self id _ d.releases)
  moved_bundle id d (some bytes) (some _) = tt
  moved_bundle id d none bundle = tt

  pub move_temp-bundle_exists :
      (id : Bytes) (d : Disk J) → Gives (λ d'. bundle_exists id d' ≡ true) (move_temp id d)
  move_temp-bundle_exists id d = at (find id d.releases)
    where
      at :
          (o : Option Release)
          → Gives (λ d'. bundle_exists id d' ≡ true) (with_release id d (temp_moved o))
      at none = tt
      at (some r) = moved_bundle id d r.temp r.bundle

abbrev pub Differs : Bytes → Option Bytes → Type 0
Differs id none = Unit {0}
Differs id (some other) = other ≢ id

-- A state that does not name the release `id`.
abbrev pub IsNamedNot : Bytes → SalvePushState → Type 0
IsNamedNot id s = Differs id s.current_release_id × Differs id s.previous_release_id

module _ {J : Json} where
  abbrev pub IsNew : Bytes → Disk J → Type 0
  IsNew id d = IsNamedNot id (state_of d)

  HasBundle-Elsewhere :
      (id : Bytes) (d d' : Disk J) (o : Option Bytes)
      → Elsewhere id d d'
      → Differs id o
      → HasBundle o d
      → HasBundle o d'
  HasBundle-Elsewhere id d d' none same ne h = h
  HasBundle-Elsewhere id d d' (some p) same ne h = rw (same.same_others p ne) h

  pub Names-Elsewhere :
      (id : Bytes) (d d' : Disk J) (s : SalvePushState)
      → Elsewhere id d d'
      → Differs id s.current_release_id
      → Differs id s.previous_release_id
      → Names s d
      → Names s d'
  Names-Elsewhere id d d' s same ne ne' (current, previous) = (
    HasBundle-Elsewhere id d d' s.current_release_id same ne current,
    HasBundle-Elsewhere id d d' s.previous_release_id same ne' previous,
  )

  pub Elsewhere-IsSound :
      (id : Bytes) (d d' : Disk J)
      → Elsewhere id d d'
      → IsSound d × IsNew id d
      → IsSound d' × IsNew id d'
  Elsewhere-IsSound id d d' same (sound, (ne, ne')) =
      subst (λ text. Names (decoded J text) d' × IsNamedNot id (decoded J text))
        (sym same.same_state) (Names-Elsewhere id d d' (state_of d) same ne ne' sound, (ne, ne'))
