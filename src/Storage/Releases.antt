-- ===== src/Storage/Releases.antt =====
-- The directory `releases`: an entry for each release, in the order of a listing.
use salve_push.Base.{
  bytes_eq_self, bytes_eq_refl, bytes_eq-ne, ◌≡◌, ◌≢◌, refl, sym, ap, ◌∙◌, Option, none, some, List,
  [], ◌∷◌, if◌then◌else◌, Bytes, bytes_eq, bytes_discrete,
}

-- The files of a release's directory, `bundle.js` and `bundle.js.tmp`.
pub record Release : Type 0 where
  pub bundle : Option Bytes
  pub temp : Option Bytes

abbrev pub Releases : Type 0
Releases = List (Bytes × Release)

abbrev pub find : Bytes → Releases → Option Release
find q [] = none
find q ((p, r) ∷ rest) = if bytes_eq q p then some r else find q rest

abbrev pub put : Bytes → Release → Releases → Releases
put q r [] = (q, r) ∷ []
put q r ((p, old) ∷ rest) = if bytes_eq q p then (p, r) ∷ rest else (p, old) ∷ put q r rest

abbrev pub remove : Bytes → Releases → Releases
remove q [] = []
remove q ((p, r) ∷ rest) = if bytes_eq q p then remove q rest else (p, r) ∷ remove q rest

pub find-put_self : (q : Bytes) (r : Release) (rs : Releases) → find q (put q r rs) ≡ some r
find-put_self q r [] = rw (bytes_eq_refl q)
find-put_self q r ((p, old) ∷ rest) = elim (bytes_discrete q p) [
  | yes e ↦ rw (bytes_eq_self q p e) (rw (bytes_eq_self q p e))
  | no ne ↦ rw (bytes_eq-ne q p ne) (rw (bytes_eq-ne q p ne) (find-put_self q r rest))
]

pub find-put_ne :
    (q p : Bytes) (r : Release) (rs : Releases) → p ≢ q → find p (put q r rs) ≡ find p rs
find-put_ne q p r [] h = rw (bytes_eq-ne p q h)
find-put_ne q p r ((k, old) ∷ rest) h = elim (bytes_discrete q k) [
  | yes e ↦ rw (bytes_eq_self q k e) (rw (bytes_eq-ne p k (λ e'. h (e' ∙ sym e))))
  | no ne ↦
      rw (bytes_eq-ne q k ne)
        (ap (λ tail. if bytes_eq p k then some old else tail) (find-put_ne q p r rest h))
]

pub find-remove_ne : (q p : Bytes) (rs : Releases) → p ≢ q → find p (remove q rs) ≡ find p rs
find-remove_ne q p [] h = refl
find-remove_ne q p ((k, r) ∷ rest) h = elim (bytes_discrete q k) [
  | yes e ↦
      rw (bytes_eq_self q k e)
        (rw (bytes_eq-ne p k (λ e'. h (e' ∙ sym e))) (find-remove_ne q p rest h))
  | no ne ↦
      rw (bytes_eq-ne q k ne)
        (ap (λ tail. if bytes_eq p k then some r else tail) (find-remove_ne q p rest h))
]

pub find-remove_self : (q : Bytes) (rs : Releases) → find q (remove q rs) ≡ none
find-remove_self q [] = refl
find-remove_self q ((k, r) ∷ rest) = elim (bytes_discrete q k) [
  | yes e ↦ rw (bytes_eq_self q k e) (find-remove_self q rest)
  | no ne ↦ rw (bytes_eq-ne q k ne) (rw (bytes_eq-ne q k ne) (find-remove_self q rest))
]

-- Of two contents that are put in a place, the last one stays.
pub put-put : (q : Bytes) (r r' : Release) (rs : Releases) → put q r (put q r' rs) ≡ put q r rs
put-put q r r' [] = rw (bytes_eq_refl q)
put-put q r r' ((p, old) ∷ rest) = elim (bytes_discrete q p) [
  | yes e ↦ rw (bytes_eq_self q p e) (rw (bytes_eq_self q p e))
  | no ne ↦
      rw (bytes_eq-ne q p ne)
        (rw (bytes_eq-ne q p ne) (ap (λ tail. (p, old) ∷ tail) (put-put q r r' rest)))
]
