-- ===== src/Server/Migrate/Tests.antt =====
-- Two migrations, of which the later one fails at first.
use salve_push.Base.{
  ◌≡◌, refl, true, false, none, some, List, [], ◌∷◌, codes, bytes_discrete, bytes_eq, if◌then◌else◌,
}
use salve_push.Server.Migrate.{
  Entry, Database, Faults, record_name, sorted_migrations, run_migrations, migrate,
}
use salve_push.Server.Migrate.Resume.{no_faults, migrate_resumes}

abbrev entries : List Entry
entries =
    record { name = codes "0002_b.sql"; is_dir = false; contents = codes "B" }
    ∷ record { name = codes "embed.go"; is_dir = false; contents = codes "go" }
    ∷ record { name = codes "0001_a.sql"; is_dir = false; contents = codes "A" }
    ∷ []

abbrev empty : Database
empty = record { has_table = false; applied = []; scripts = [] }

abbrev second_fails : Faults
second_fails = record {
  setup = none;
  at = λ name. if bytes_eq name (codes "0002_b.sql") then some record_name else none;
}

migrate_test : (migrate second_fails entries empty).1.scripts ≡ codes "A" ∷ []
unfolding migrate sorted_migrations run_migrations bytes_discrete
migrate_test = refl

migrate_all_test : (migrate no_faults entries empty).1.scripts ≡ codes "A" ∷ codes "B" ∷ []
unfolding migrate sorted_migrations run_migrations bytes_discrete
migrate_all_test = refl

migrate_resumes_example :
    migrate no_faults entries (migrate second_fails entries empty).1
    ≡ (true, (migrate no_faults entries empty).1)
migrate_resumes_example = migrate_resumes second_fails entries empty
