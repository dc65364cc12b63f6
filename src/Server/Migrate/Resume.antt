-- ===== src/Server/Migrate/Resume.antt =====
-- A run that was interrupted is finished by the next one.
use salve_push.Base.{
  ◌≡◌, refl, sym, ap, ◌∙◌, Bool, true, false, Option, none, some, inl, inr, List, [], ◌∷◌,
  Bool-cases, if◌then◌else◌,
}
use salve_push.Server.Migrate.{
  Entry, Database, Call, check, read, begin, apply, record_name, commit, lost_commit, Setup, conn,
  lock, create_table, read_dir, Faults, is_applied, with_migration, apply_migration, skip_migration,
  go_on, run_migrations, sorted_migrations, with_table, after_setup, migrate,
}
use salve_push.Server.Migrate.Keeps.{
  is_applied_last, skip_cases, run_migrations-keeps, stays_applied,
}

abbrev pub no_faults : Faults
no_faults = record { setup = none; at = λ name. none }

-- A run without faults begins behind a migration that is applied.
skip_first :
    (entry : Entry) (rest : List Entry) (db : Database)
    → is_applied entry.name db.applied ≡ true
    → run_migrations no_faults (entry ∷ rest) db ≡ run_migrations no_faults rest db
unfolding run_migrations
skip_first entry rest db h = rw h

apply_first :
    (entry : Entry) (rest : List Entry) (db : Database)
    → is_applied entry.name db.applied ≡ false
    → run_migrations no_faults (entry ∷ rest) db
      ≡ run_migrations no_faults rest (with_migration entry db)
unfolding run_migrations
apply_first entry rest db h = rw h

abbrev Resumes : Faults → List Entry → Database → Type 0
Resumes x entries db =
    run_migrations no_faults entries (run_migrations x entries db).1
    ≡ run_migrations no_faults entries db

-- The migration is there behind its turn, and the rest of the loop resumes.
resume_rest :
    (x : Faults) (entry : Entry) (rest : List Entry) (db : Database)
    → is_applied entry.name db.applied ≡ true
    → Resumes x rest db
    → run_migrations no_faults (entry ∷ rest) (run_migrations x rest db).1
      ≡ run_migrations no_faults rest db
resume_rest x entry rest db h resumes =
    skip_first entry rest (run_migrations x rest db).1 (stays_applied entry.name x rest db h)
    ∙ resumes

run_migrations-Resumes : (x : Faults) (entries : List Entry) (db : Database) → Resumes x entries db
unfolding run_migrations
run_migrations-Resumes x [] db = refl
run_migrations-Resumes x (entry ∷ rest) db = elim (Bool-cases (is_applied entry.name db.applied)) [
  | inl done ↦
      ap (λ b. again (go b)) done
      ∙ skipped (x.at entry.name) done (run_migrations-Resumes x rest db)
  | inr new ↦
      ap (λ b. again (go b)) new
      ∙ applies (x.at entry.name) new (run_migrations-Resumes x rest (with_migration entry db))
]
  where
    again : Bool × Database → Bool × Database
    again e = run_migrations no_faults (entry ∷ rest) e.1

    next : Bool × Database → Bool × Database
    next e = go_on e (λ db'. run_migrations x rest db')

    go : Bool → Bool × Database
    go b = next (
        if b
        then skip_migration (x.at entry.name) db
        else apply_migration (x.at entry.name) entry db)

    stopped : again (false, db) ≡ run_migrations no_faults (entry ∷ rest) db
    stopped = refl

    skipped :
        (call : Option Call)
        → is_applied entry.name db.applied ≡ true
        → Resumes x rest db
        → again (next (skip_migration call db)) ≡ run_migrations no_faults (entry ∷ rest) db
    skipped call h r = elim (skip_cases call db) [
      | inl e ↦
          ap (λ m. again (next m)) e
          ∙ resume_rest x entry rest db h r
          ∙ sym (skip_first entry rest db h)
      | inr e ↦ ap (λ m. again (next m)) e
    ]

    there : is_applied entry.name (with_migration entry db).applied ≡ true
    there = is_applied_last entry.name db.applied

    applies :
        (call : Option Call)
        → is_applied entry.name db.applied ≡ false
        → Resumes x rest (with_migration entry db)
        → again (next (apply_migration call entry db)) ≡ run_migrations no_faults (entry ∷ rest) db
    applies none h r =
        resume_rest x entry rest (with_migration entry db) there r
        ∙ sym (apply_first entry rest db h)
    applies (some check) h r = stopped
    applies (some read) h r = stopped
    applies (some begin) h r = stopped
    applies (some apply) h r = stopped
    applies (some record_name) h r = stopped
    applies (some commit) h r = stopped
    applies (some lost_commit) h r =
        skip_first entry rest (with_migration entry db) there ∙ sym (apply_first entry rest db h)

run_migrations-returns :
    (entries : List Entry) (db : Database) → (run_migrations no_faults entries db).0 ≡ true
unfolding run_migrations
run_migrations-returns [] db = refl
run_migrations-returns (entry ∷ rest) db =
    at (is_applied entry.name db.applied) (run_migrations-returns rest)
  where
    at :
        (b : Bool)
        → ((db' : Database) → (run_migrations no_faults rest db').0 ≡ true)
        → (go_on
            (if b then skip_migration none db else apply_migration none entry db)
            (λ db'. run_migrations no_faults rest db')).0
          ≡ true
    at true others = others db
    at false others = others (with_migration entry db)

-- A run of `Migrate`, wherever one of its calls fails, also with a commit that took effect but was
-- answered with an error, and a run without failures behind it: this one returns without an error
-- and leaves the database that one run without failures leaves.
pub migrate_resumes :
    (x : Faults) (entries : List Entry) (db : Database)
    → migrate no_faults entries (migrate x entries db).1 ≡ (true, (migrate no_faults entries db).1)
unfolding migrate
migrate_resumes x entries db =
    resumed x.setup
    ∙ ap (λ b. (b, (migrate no_faults entries db).1))
        (run_migrations-returns (sorted_migrations entries) (with_table db))
  where
    names : List Entry
    names = sorted_migrations entries

    resumed :
        (o : Option Setup)
        → migrate no_faults entries (after_setup o x entries db).1 ≡ migrate no_faults entries db
    resumed none =
        ap
          (λ b.
            run_migrations no_faults names
              (record (run_migrations x names (with_table db)).1 { has_table = b }))
          (sym (
            run_migrations-keeps (λ d. d.has_table ≡ true) (λ entry d h. h) x names (with_table db)
              refl))
        ∙ run_migrations-Resumes x names (with_table db)
    resumed (some conn) = refl
    resumed (some lock) = refl
    resumed (some create_table) = refl
    resumed (some read_dir) = refl
