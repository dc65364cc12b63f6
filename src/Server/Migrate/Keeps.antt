-- ===== src/Server/Migrate/Keeps.antt =====
-- What a run keeps, whatever fails in it.
use mathlib.Core.Path.{subst}
use salve_push.Base.{
  ◌≡◌, refl, sym, ap, ◌∙◌, Bool, true, false, Option, none, some, inl, inr, List, [], ◌∷◌, ◌++◌,
  Bytes, bytes_eq, bytes_eq_refl, Bool-cases, if_elim, ◌⊎◌, if◌then◌else◌,
}
use salve_push.Server.Migrate.{
  Entry, Database, Call, check, read, begin, apply, record_name, commit, lost_commit, Faults,
  is_applied, with_migration, apply_migration, skip_migration, run_migration, go_on, run_migrations,
}

-- A name that is there stays there.
is_applied-append :
    (name : Bytes) (names more : List Bytes)
    → is_applied name names ≡ true
    → is_applied name (names ++ more) ≡ true
is_applied-append name [] more h = cc h
is_applied-append name (other ∷ rest) more h = elim (Bool-cases (bytes_eq name other)) [
  | inl e ↦ rw e
  | inr e ↦ rw e (
      is_applied-append name rest more
        (sym (ap (λ b. if b then true else is_applied name rest) e) ∙ h))
]

pub is_applied_last :
    (name : Bytes) (names : List Bytes) → is_applied name (names ++ (name ∷ [])) ≡ true
is_applied_last name [] = rw (bytes_eq_refl name)
is_applied_last name (other ∷ rest) = at (bytes_eq name other) (is_applied_last name rest)
  where
    at :
        (b : Bool)
        → is_applied name (rest ++ (name ∷ [])) ≡ true
        → (if b then true else is_applied name (rest ++ (name ∷ []))) ≡ true
    at true e = refl
    at false e = e

pub skip_cases :
    (call : Option Call) (db : Database)
    → (skip_migration call db ≡ (true, db)) ⊎ (skip_migration call db ≡ (false, db))
skip_cases none db = inl refl
skip_cases (some check) db = inr refl
skip_cases (some read) db = inl refl
skip_cases (some begin) db = inl refl
skip_cases (some apply) db = inl refl
skip_cases (some record_name) db = inl refl
skip_cases (some commit) db = inl refl
skip_cases (some lost_commit) db = inl refl

-- What every migration keeps, a run keeps, whatever fails.
module _ (Q : Database → Type 0)
    (keep : (entry : Entry) (db : Database) → Q db → Q (with_migration entry db)) where
  apply-keeps :
      (call : Option Call) (entry : Entry) (db : Database)
      → Q db
      → Q (apply_migration call entry db).1
  apply-keeps none entry db h = keep entry db h
  apply-keeps (some check) entry db h = h
  apply-keeps (some read) entry db h = h
  apply-keeps (some begin) entry db h = h
  apply-keeps (some apply) entry db h = h
  apply-keeps (some record_name) entry db h = h
  apply-keeps (some commit) entry db h = h
  apply-keeps (some lost_commit) entry db h = keep entry db h

  skip-keeps : (call : Option Call) (db : Database) → Q db → Q (skip_migration call db).1
  skip-keeps call db h = elim (skip_cases call db) [
    | inl e ↦ subst (λ r. Q r.1) (sym e) h
    | inr e ↦ subst (λ r. Q r.1) (sym e) h
  ]

  run_migration-keeps :
      (call : Option Call) (entry : Entry) (db : Database)
      → Q db
      → Q (run_migration call entry db).1
  run_migration-keeps call entry db h =
      if_elim (λ (r : Bool × Database). Q r.1) (is_applied entry.name db.applied)
        (λ _. skip-keeps call db h) (λ _. apply-keeps call entry db h)

  pub run_migrations-keeps :
      (x : Faults) (entries : List Entry) (db : Database) → Q db → Q (run_migrations x entries db).1
  unfolding run_migrations
  run_migrations-keeps x [] db h = h
  run_migrations-keeps x (entry ∷ rest) db h =
      at (run_migration (x.at entry.name) entry db)
        (run_migration-keeps (x.at entry.name) entry db h) (λ db'. run_migrations-keeps x rest db')
    where
      at :
          (e : Bool × Database)
          → Q e.1
          → ((db' : Database) → Q db' → Q (run_migrations x rest db').1)
          → Q (go_on e (λ db'. run_migrations x rest db')).1
      at (true, db') kept others = others db' kept
      at (false, db') kept others = kept

pub stays_applied :
    (name : Bytes) (x : Faults) (entries : List Entry) (db : Database)
    → is_applied name db.applied ≡ true
    → is_applied name (run_migrations x entries db).1.applied ≡ true
stays_applied name =
    run_migrations-keeps (λ db. is_applied name db.applied ≡ true)
      (λ entry db h. is_applied-append name db.applied (entry.name ∷ []) h)
