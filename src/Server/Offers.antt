-- ===== src/Server/Offers.antt =====
-- Which releases a device is offered, and in which order.
use mathlib.Core.List.{Memᴰ}
use salve_push.Base.{
  ℕ, ltb, bytes_eq, bytes_eq-true, bytes_eq_self, Option, none, some, ◌&&◌, leb, ◌≤◌, ◌≡◌, ◌↔◌, inl,
  inr, refl, sym, ap, ◌∙◌, Bool, true, false, List, [], ◌∷◌, Bool-cases, if◌then◌else◌, arith,
}
use salve_push.Server.{
  Release, ListUpdatesFilter, ok, err, failed, Service, Faults, Parts, is_offered, selected,
  insert_newest, newest_first, list_updates,
}

-- No row comes before one that is newer.
abbrev AllOlder : Release → List Release → Type 0
AllOlder r [] = Unit {0}
AllOlder r (q ∷ rest) = (q.created_at ≤ r.created_at) × AllOlder r rest

abbrev pub IsNewestFirst : List Release → Type 0
IsNewestFirst [] = Unit {0}
IsNewestFirst (r ∷ rest) = AllOlder r rest × IsNewestFirst rest

AllOlder-trans :
    (r q : Release) (rows : List Release)
    → q.created_at ≤ r.created_at
    → AllOlder q rows
    → AllOlder r rows
AllOlder-trans r q [] h hs = tt
AllOlder-trans r q (s ∷ rest) h (first, hs) = (omega arith, AllOlder-trans r q rest h hs)

AllOlder-insert :
    (r q : Release) (rows : List Release)
    → q.created_at ≤ r.created_at
    → AllOlder r rows
    → AllOlder r (insert_newest q rows)
AllOlder-insert r q [] h hs = (h, tt)
AllOlder-insert r q (s ∷ rest) h (first, hs) =
    at (leb s.created_at q.created_at) (AllOlder-insert r q rest h hs)
  where
    at :
        (b : Bool)
        → AllOlder r (insert_newest q rest)
        → AllOlder r (if b then q ∷ (s ∷ rest) else s ∷ insert_newest q rest)
    at true others = (h, (first, hs))
    at false others = (first, others)

insert_newest-IsNewestFirst :
    (r : Release) (rows : List Release) → IsNewestFirst rows → IsNewestFirst (insert_newest r rows)
insert_newest-IsNewestFirst r [] h = (tt, tt)
insert_newest-IsNewestFirst r (s ∷ rest) (older, h) =
    elim (Bool-cases (leb s.created_at r.created_at)) [
      | inl e ↦
          rw e ((le_of_leb s r e, AllOlder-trans r s rest (le_of_leb s r e) older), (older, h))
      | inr e ↦
          rw e
            (AllOlder-insert s r rest (ge_of_leb s r e) older, insert_newest-IsNewestFirst r rest h)
    ]
  where
    le_of_leb : (s r : Release) → leb s.created_at r.created_at ≡ true → s.created_at ≤ r.created_at
    le_of_leb s r e = ground arith

    ge_of_leb :
        (s r : Release) → leb s.created_at r.created_at ≡ false → r.created_at ≤ s.created_at
    ge_of_leb s r e = ground arith

newest_first-IsNewestFirst : (rows : List Release) → IsNewestFirst (newest_first rows)
newest_first-IsNewestFirst [] = tt
newest_first-IsNewestFirst (r ∷ rest) =
    insert_newest-IsNewestFirst r (newest_first rest) (newest_first-IsNewestFirst rest)

-- Sorting neither loses nor makes rows.
mem_insert :
    (q r : Release) (rows : List Release) → Memᴰ q (r ∷ rows) → Memᴰ q (insert_newest r rows)
mem_insert q r [] m = m
mem_insert q r (s ∷ rest) m = at (leb s.created_at r.created_at) (mem_insert q r rest) m
  where
    at :
        (b : Bool)
        → (Memᴰ q (r ∷ rest) → Memᴰ q (insert_newest r rest))
        → Memᴰ q (r ∷ (s ∷ rest))
        → Memᴰ q (if b then r ∷ (s ∷ rest) else s ∷ insert_newest r rest)
    at true others m = m
    at false others (Memᴰ.head e) = Memᴰ.tail (others (Memᴰ.head e))
    at false others (Memᴰ.tail (Memᴰ.head e)) = Memᴰ.head e
    at false others (Memᴰ.tail (Memᴰ.tail m)) = Memᴰ.tail (others (Memᴰ.tail m))

mem_of_insert :
    (q r : Release) (rows : List Release) → Memᴰ q (insert_newest r rows) → Memᴰ q (r ∷ rows)
mem_of_insert q r [] m = m
mem_of_insert q r (s ∷ rest) m = at (leb s.created_at r.created_at) (mem_of_insert q r rest) m
  where
    swap : Memᴰ q (r ∷ rest) → Memᴰ q (r ∷ (s ∷ rest))
    swap (Memᴰ.head e) = Memᴰ.head e
    swap (Memᴰ.tail m) = Memᴰ.tail (Memᴰ.tail m)

    at :
        (b : Bool)
        → (Memᴰ q (insert_newest r rest) → Memᴰ q (r ∷ rest))
        → Memᴰ q (if b then r ∷ (s ∷ rest) else s ∷ insert_newest r rest)
        → Memᴰ q (r ∷ (s ∷ rest))
    at true others m = m
    at false others (Memᴰ.head e) = Memᴰ.tail (Memᴰ.head e)
    at false others (Memᴰ.tail m) = swap (others m)

mem_newest_first : (q : Release) (rows : List Release) → Memᴰ q rows → Memᴰ q (newest_first rows)
mem_newest_first q [] m = m
mem_newest_first q (r ∷ rest) m =
    mem_insert q r (newest_first rest) (below (λ m'. mem_newest_first q rest m') m)
  where
    below :
        (Memᴰ q rest → Memᴰ q (newest_first rest))
        → Memᴰ q (r ∷ rest)
        → Memᴰ q (r ∷ newest_first rest)
    below f (Memᴰ.head e) = Memᴰ.head e
    below f (Memᴰ.tail m) = Memᴰ.tail (f m)

mem_of_newest_first : (q : Release) (rows : List Release) → Memᴰ q (newest_first rows) → Memᴰ q rows
mem_of_newest_first q [] m = m
mem_of_newest_first q (r ∷ rest) m =
    above (λ m'. mem_of_newest_first q rest m') (mem_of_insert q r (newest_first rest) m)
  where
    above :
        (Memᴰ q (newest_first rest) → Memᴰ q rest)
        → Memᴰ q (r ∷ newest_first rest)
        → Memᴰ q (r ∷ rest)
    above f (Memᴰ.head e) = Memᴰ.head e
    above f (Memᴰ.tail m) = Memᴰ.tail (f m)

mem_selected :
    (p : Release → Bool) (q : Release) (rows : List Release)
    → Memᴰ q rows
    → p q ≡ true
    → Memᴰ q (selected p rows)
mem_selected p q [] m h = elim m [ ]
mem_selected p q (r ∷ rest) (Memᴰ.head e) h = at (p r) (sym (ap p e) ∙ h)
  where
    at : (b : Bool) → b ≡ true → Memᴰ q (if b then r ∷ selected p rest else selected p rest)
    at true e' = Memᴰ.head e
    at false e' = cc e'
mem_selected p q (r ∷ rest) (Memᴰ.tail m) h = at (p r) (mem_selected p q rest m h)
  where
    at :
        (b : Bool)
        → Memᴰ q (selected p rest)
        → Memᴰ q (if b then r ∷ selected p rest else selected p rest)
    at true m' = Memᴰ.tail m'
    at false m' = m'

mem_of_selected :
    (p : Release → Bool) (q : Release) (rows : List Release)
    → Memᴰ q (selected p rows)
    → Memᴰ q rows × (p q ≡ true)
mem_of_selected p q [] m = elim m [ ]
mem_of_selected p q (r ∷ rest) m = at (p r) refl (λ m'. mem_of_selected p q rest m') m
  where
    at :
        (b : Bool)
        → p r ≡ b
        → (Memᴰ q (selected p rest) → Memᴰ q rest × (p q ≡ true))
        → Memᴰ q (if b then r ∷ selected p rest else selected p rest)
        → Memᴰ q (r ∷ rest) × (p q ≡ true)
    at true e f (Memᴰ.head e') = (Memᴰ.head e', ap p e' ∙ e)
    at true e f (Memᴰ.tail m') = let (m2, h) = f m' in (Memᴰ.tail m2, h)
    at false e f m' = let (m2, h) = f m' in (Memᴰ.tail m2, h)

-- What a device with this channel, platform and runtime version must be offered.
abbrev pub IsFor : ListUpdatesFilter → Release → Type 0
IsFor f r =
    (time : ℕ) × (r.published_at ≡ some time)
    × (r.channel ≡ f.channel)
    × (r.platform ≡ f.platform)
    × (r.runtime_version ≡ f.runtime_version)
    × (1 ≤ r.rollout_percentage)

both : (a b : Bool) → (a && b) ≡ true → (a ≡ true) × (b ≡ true)
both true b e = (refl, e)
both false b e = cc e

is_offered-IsFor : (f : ListUpdatesFilter) (r : Release) → is_offered f r ≡ true → IsFor f r
unfolding is_offered
is_offered-IsFor f r h =
    let (h4, rollout) = both _ (ltb 0 r.rollout_percentage) h in
    let (h3, runtime) = both _ (bytes_eq r.runtime_version f.runtime_version) h4 in
    let (h2, platform) = both _ (bytes_eq r.platform f.platform) h3 in
    let (published, channel) = both _ (bytes_eq r.channel f.channel) h2 in
    let (time, at_time) = time_of r.published_at published in
    (
      time,
      at_time,
      bytes_eq-true r.channel f.channel channel,
      bytes_eq-true r.platform f.platform platform,
      bytes_eq-true r.runtime_version f.runtime_version runtime,
      above r.rollout_percentage rollout,
    )
  where
    time_of :
        (o : Option ℕ)
        → (elim o [ none ↦ false | some _ ↦ true ]) ≡ true
        → (time : ℕ) × (o ≡ some time)
    time_of none e = cc e
    time_of (some time) e = (time, refl)

    above : (n : ℕ) → ltb 0 n ≡ true → 1 ≤ n
    above n e = ground arith

IsFor-is_offered : (f : ListUpdatesFilter) (r : Release) → IsFor f r → is_offered f r ≡ true
unfolding is_offered
IsFor-is_offered f r (time, published, channel, platform, runtime, rollout) = rw (
  published,
  bytes_eq_self r.channel f.channel channel,
  bytes_eq_self r.platform f.platform platform,
  bytes_eq_self r.runtime_version f.runtime_version runtime,
  below r.rollout_percentage rollout,
)
  where
    below : (n : ℕ) → 1 ≤ n → ltb 0 n ≡ true
    below n h = ground arith

-- Where its query works, `ListUpdates` returns exactly the releases of the table that have a time
-- of publication, the channel, the platform and the runtime version that are asked for, and a
-- rollout percentage of at least one, and none of them comes before one that is newer.
pub list_updates-IsNewestFirst :
    (P : Parts) (x : Faults) (f : ListUpdatesFilter) (s : Service)
    → x.select ≡ false
    → (rows : List Release) × (list_updates P x f s ≡ ok rows)
      × IsNewestFirst rows
      × ((q : Release) → Memᴰ q rows ↔ (Memᴰ q s.rows × IsFor f q))
unfolding list_updates
list_updates-IsNewestFirst P x f s works =
    let chosen = selected (is_offered f) s.rows in
    (
      newest_first chosen,
      ap (λ b. if b then err failed else ok (newest_first chosen)) works,
      newest_first-IsNewestFirst chosen,
      λ q. (
        λ m.
            let (there, e) =
              mem_of_selected (is_offered f) q s.rows (mem_of_newest_first q chosen m) in
            (there, is_offered-IsFor f q e),
        λ h.
            mem_newest_first q chosen
              (mem_selected (is_offered f) q s.rows h.0 (IsFor-is_offered f q h.1)),
      ),
    )
