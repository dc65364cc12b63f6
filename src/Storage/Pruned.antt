-- ===== src/Storage/Pruned.antt =====
-- What `pruneOldReleases` leaves of the releases.
use mathlib.Core.Path.{subst}
use salve_push.Base.{
  bytes_eq-ne, ◌≡◌, refl, sym, ap, ◌∙◌, Bool, true, false, Option, none, List, [], ◌∷◌, Bytes,
  bytes_eq, bytes_discrete, Bool-cases, inl, inr, if◌then◌else◌, map,
}
use salve_push.Storage.Releases.{Releases, find, remove, find-remove_ne, find-remove_self}
use salve_push.Storage.Operations.{keeps}

-- Every name of the list that is not kept is removed.
abbrev pub pruned : Bytes → Option Bytes → List Bytes → Releases → Releases
pruned id previous [] rs = rs
pruned id previous (name ∷ rest) rs =
    pruned id previous rest (if keeps id previous name then rs else remove name rs)

abbrev pub names_of : Releases → List Bytes
names_of rs = map (λ entry. entry.0) rs

-- One step of pruning.
pruned_step :
    (id : Bytes) (previous : Option Bytes) (name p : Bytes) (rs : Releases)
    → keeps id previous p ≡ true
    → find p (if keeps id previous name then rs else remove name rs) ≡ find p rs
pruned_step id previous name p rs h = elim (bytes_discrete p name) [
  | yes e ↦ rw (ap (keeps id previous) (sym e) ∙ h)
  | no ne ↦ elim (Bool-cases (keeps id previous name)) [
    | inl kept ↦ rw kept
    | inr gone ↦ rw gone (find-remove_ne name p rs ne)
  ]
]

pub find-pruned_kept :
    (id : Bytes) (previous : Option Bytes) (names : List Bytes) (p : Bytes) (rs : Releases)
    → keeps id previous p ≡ true
    → find p (pruned id previous names rs) ≡ find p rs
find-pruned_kept id previous [] p rs h = refl
find-pruned_kept id previous (name ∷ rest) p rs h =
    find-pruned_kept id previous rest p (if keeps id previous name then rs else remove name rs) h
    ∙ pruned_step id previous name p rs h

none_stays :
    (id : Bytes) (previous : Option Bytes) (name p : Bytes) (rs : Releases)
    → find p rs ≡ none
    → find p (if keeps id previous name then rs else remove name rs) ≡ none
none_stays id previous name p rs h = elim (Bool-cases (keeps id previous name)) [
  | inl kept ↦ rw kept h
  | inr gone ↦ rw gone (elim (bytes_discrete p name) [
    | yes e ↦ subst (λ q. find q (remove name rs) ≡ none) (sym e) (find-remove_self name rs)
    | no ne ↦ find-remove_ne name p rs ne ∙ h
  ])
]

abbrev listed : Bytes → List Bytes → Bool
listed p [] = false
listed p (name ∷ rest) = if bytes_eq p name then true else listed p rest

unlisted-none : (p : Bytes) (rs : Releases) → listed p (names_of rs) ≡ false → find p rs ≡ none
unlisted-none p [] h = refl
unlisted-none p ((name, r) ∷ rest) h = elim (Bool-cases (bytes_eq p name)) [
  | inl same ↦ absurd (cc (sym (ap (λ b. if b then true else listed p (names_of rest)) same) ∙ h))
  | inr other ↦ rw other (
      unlisted-none p rest (sym (ap (λ b. if b then true else listed p (names_of rest)) other) ∙ h))
]

pruned-none :
    (id : Bytes) (previous : Option Bytes) (names : List Bytes) (p : Bytes) (rs : Releases)
    → keeps id previous p ≡ false
    → (listed p names ≡ false → find p rs ≡ none)
    → find p (pruned id previous names rs) ≡ none
pruned-none id previous [] p rs h absent = absent refl
pruned-none id previous (name ∷ rest) p rs h absent =
    pruned-none id previous rest p (if keeps id previous name then rs else remove name rs) h
      (λ unlisted. elim (bytes_discrete p name) [
        | yes e ↦
            ap (λ b. find p (if b then rs else remove name rs)) (ap (keeps id previous) (sym e) ∙ h)
            ∙ subst (λ q. find q (remove name rs) ≡ none) (sym e) (find-remove_self name rs)
        | no ne ↦ none_stays id previous name p rs (
            absent (ap (λ b. if b then true else listed p rest) (bytes_eq-ne p name ne) ∙ unlisted))
      ])

-- A release that is not kept is gone.
pub find-pruned_gone :
    (id : Bytes) (previous : Option Bytes) (p : Bytes) (rs : Releases)
    → keeps id previous p ≡ false
    → find p (pruned id previous (names_of rs) rs) ≡ none
find-pruned_gone id previous p rs h =
    pruned-none id previous (names_of rs) p rs h (λ unlisted. unlisted-none p rs unlisted)
