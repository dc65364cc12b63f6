-- ===== src/Bindings/Apple/Lifetime/Counted.antt =====
-- A Swift object has at most one C++ part, and each reference on it is accounted for.
use mathlib.Core.Path.{subst}
use salve_push.Base.{
  sym, ℕ, zero, suc, ◌-◌, ◌+◌, ==_iff, ◌≤◌, ◌≡◌, ◌==◌, refl, ap, ◌∙◌, Bool, true, false, Option,
  none, some, List, [], ◌∷◌, length, if◌then◌else◌, arith,
}
use salve_push.Bindings.Apple.Lifetime.{
  Heap, release, to_unsafe, from_unsafe, share, is_alive, lock, create_part, weakify, cached_or_new,
  get_cxx_part, drop_part, Step, own, disown, get, take, copy, drop, Reach, here, next, new_object,
}

-- What the C++ part of the object holds.
abbrev Counted : Option ℕ → List (ℕ × ℕ) → ℕ → ℕ → Type 0
Counted cxx_part [] strong owners = strong ≡ owners
Counted cxx_part ((id, zero) ∷ rest) strong owners = ⊥
Counted cxx_part ((id, suc count) ∷ []) strong owners = (cxx_part ≡ some id) × (strong ≡ suc owners)
Counted cxx_part ((id, suc count) ∷ (other ∷ rest)) strong owners = ⊥

abbrev IsCounted : Heap × ℕ → Type 0
IsCounted (h, owners) = Counted h.cxx_part h.parts h.strong owners

-- Another reference of an owner, and one less.
Counted-suc :
    (c : Option ℕ) (parts : List (ℕ × ℕ)) (strong owners : ℕ)
    → Counted c parts strong owners
    → Counted c parts (suc strong) (suc owners)
Counted-suc c [] strong owners h = ap suc h
Counted-suc c ((id, zero) ∷ rest) strong owners h = h
Counted-suc c ((id, suc count) ∷ []) strong owners (e, h) = (e, ap suc h)
Counted-suc c ((id, suc count) ∷ (other ∷ rest)) strong owners h = h

Counted-pred :
    (c : Option ℕ) (parts : List (ℕ × ℕ)) (strong owners : ℕ)
    → Counted c parts strong (suc owners)
    → Counted c parts (strong - 1) owners
Counted-pred c [] strong owners h = omega arith
Counted-pred c ((id, zero) ∷ rest) strong owners h = h
Counted-pred c ((id, suc count) ∷ []) strong owners (e, h) = (e, omega arith)
Counted-pred c ((id, suc count) ∷ (other ∷ rest)) strong owners h = h

Counted-share :
    (id : ℕ) (c : Option ℕ) (parts : List (ℕ × ℕ)) (strong owners : ℕ)
    → Counted c parts strong owners
    → Counted c (share id parts) strong owners
Counted-share id c [] strong owners h = h
Counted-share id c ((other, zero) ∷ rest) strong owners h = elim h [ ]
Counted-share id c ((other, suc count) ∷ []) strong owners h = at (other == id)
  where
    at :
        (b : Bool)
        → Counted c
            (if b then (other, suc (suc count)) ∷ [] else (other, suc count) ∷ [])
            strong
            owners
    at true = h
    at false = h
Counted-share id c ((other, suc count) ∷ (another ∷ rest)) strong owners h = elim h [ ]

-- The first of the parts.
abbrev pub first_part : List (ℕ × ℕ) → Option ℕ
first_part [] = none
first_part ((id, count) ∷ rest) = some id

-- What is alive is what the weak pointer gives.
lock-Counted :
    (c : Option ℕ) (parts : List (ℕ × ℕ)) (strong owners : ℕ)
    → Counted c parts strong owners
    → lock c parts ≡ first_part parts
lock-Counted none [] strong owners h = refl
lock-Counted (some id) [] strong owners h = refl
lock-Counted c ((id, zero) ∷ rest) strong owners h = elim h [ ]
lock-Counted c ((id, suc count) ∷ []) strong owners (e, h) =
    ap (λ o. lock o ((id, suc count) ∷ [])) e
    ∙ ap (λ b. if (if b then true else false) then some id else none) ((==_iff id id).1 refl)
lock-Counted c ((id, suc count) ∷ (other ∷ rest)) strong owners h = elim h [ ]

got-IsCounted :
    (h : Heap) (owners : ℕ)
    → IsCounted (h, owners)
    → IsCounted ((cached_or_new (first_part h.parts) h).1, owners)
unfolding create_part to_unsafe from_unsafe weakify
got-IsCounted h owners counted = at h.parts counted
  where
    at :
        (parts : List (ℕ × ℕ))
        → Counted h.cxx_part parts h.strong owners
        → IsCounted ((cached_or_new (first_part parts) (record h { parts = parts })).1, owners)
    at [] e = (refl, omega arith)
    at ((id, count) ∷ rest) e = Counted-share id h.cxx_part ((id, count) ∷ rest) h.strong owners e

dropped-IsCounted :
    (id : ℕ) (h : Heap) (owners : ℕ)
    → is_alive id h.parts ≡ true
    → IsCounted (h, owners)
    → IsCounted (drop_part id h, owners)
dropped-IsCounted id h owners alive counted = at h.parts alive counted
  where
    at :
        (parts : List (ℕ × ℕ))
        → is_alive id parts ≡ true
        → Counted h.cxx_part parts h.strong owners
        → IsCounted (drop_part id (record h { parts = parts }), owners)
    at [] alive c = cc alive
    at ((other, zero) ∷ rest) alive c = elim c [ ]
    at ((other, suc zero) ∷ []) alive c = last (other == id) alive
      where
        last :
            (b : Bool)
            → (if b then true else false) ≡ true
            → let parts : List (ℕ × ℕ) = if b then [] else (other, 1) ∷ [] in
              let h' = record h { parts = parts } in
              IsCounted (if is_alive id parts then h' else release h', owners)
        last true e = omega (arith, c.1)
        last false e = cc e
    at ((other, suc (suc count)) ∷ []) alive c = one_less (other == id) alive
      where
        one_less :
            (b : Bool)
            → (if b then true else false) ≡ true
            → let parts : List (ℕ × ℕ) =
                if b then (other, suc count) ∷ [] else (other, suc (suc count)) ∷ [] in
              let h' = record h { parts = parts } in
              IsCounted (if is_alive id parts then h' else release h', owners)
        one_less true e =
            let h' = record h { parts = (other, suc count) ∷ [] } in
            subst (λ x. IsCounted (if x then h' else release h', owners)) (sym alive) c
        one_less false e = cc e
    at ((other, suc count) ∷ (another ∷ rest)) alive c = elim c [ ]

Step-IsCounted : {s t : Heap × ℕ} → Step s t → IsCounted s → IsCounted t
unfolding to_unsafe from_unsafe get_cxx_part
Step-IsCounted (own h owners) c = Counted-suc h.cxx_part h.parts h.strong (suc owners) c
Step-IsCounted (disown h owners) c = Counted-pred h.cxx_part h.parts h.strong owners c
Step-IsCounted (get h owners) c =
    subst (λ o. IsCounted ((cached_or_new o h).1, suc owners))
      (sym (lock-Counted h.cxx_part h.parts h.strong (suc owners) c))
      (got-IsCounted h (suc owners) c)
Step-IsCounted (take h owners id alive) c = Counted-suc h.cxx_part h.parts h.strong owners c
Step-IsCounted (copy h owners id alive) c = Counted-share id h.cxx_part h.parts h.strong owners c
Step-IsCounted (drop h owners id alive) c = dropped-IsCounted id h owners alive c

Reach-IsCounted : {s : Heap × ℕ} → Reach new_object s → IsCounted s
Reach-IsCounted here = refl
Reach-IsCounted (next r step) = Step-IsCounted step (Reach-IsCounted r)

-- However Swift and C++ take, copy and drop references: a Swift object has at most one C++ part at
-- a time, its strong references are those of its owners and one for each C++ part, and
-- `getCxxPart` gives the part that is alive, if there is one, and else the next new one.
pub cxx_part-counted :
    (h : Heap) (owners : ℕ)
    → Reach new_object (h, owners)
    → (length h.parts ≤ 1)
      × (h.strong ≡ owners + length h.parts)
      × ((get_cxx_part h).0 ≡ elim (first_part h.parts) [ none ↦ h.next | some id ↦ id ])
unfolding get_cxx_part create_part from_unsafe to_unsafe
cxx_part-counted h owners r =
    let c = Reach-IsCounted r in
    let (few, strong) = counted h.parts c in
    (
      few,
      strong,
      ap (λ o. (cached_or_new o h).0) (lock-Counted h.cxx_part h.parts h.strong owners c)
          ∙ given (first_part h.parts),
    )
  where
    counted :
        (parts : List (ℕ × ℕ))
        → Counted h.cxx_part parts h.strong owners
        → (length parts ≤ 1) × (h.strong ≡ owners + length parts)
    counted [] c = (omega arith, omega (arith, c))
    counted ((id, zero) ∷ rest) c = elim c [ ]
    counted ((id, suc count) ∷ []) c = (omega arith, omega (arith, c.1))
    counted ((id, suc count) ∷ (other ∷ rest)) c = elim c [ ]

    given : (o : Option ℕ) → (cached_or_new o h).0 ≡ elim o [ none ↦ h.next | some id ↦ id ]
    given none = refl
    given (some id) = refl
