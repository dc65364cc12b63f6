-- ===== src/Server/Migrate.antt =====
-- server/internal/database/database.go: `Migrate`. A run of SQL in a transaction is the script's
-- entry in the list of those that took effect; the database takes nothing of one that fails.
pub mod Keeps
pub mod Resume
mod Tests
use salve_push.Base.{
  ltb, ◌==◌, ◌&&◌, Bool, true, false, Option, none, some, List, [], ◌∷◌, ◌++◌, Bytes, codes,
  bytes_eq, not, if◌then◌else◌,
}

-- An entry of the directory; a file has contents.
pub record Entry : Type 0 where
  pub name : Bytes
  pub is_dir : Bool
  pub contents : Bytes

-- `path.Ext` of a name without slashes: the text from its last dot on.
abbrev pub last_dot : Bytes → Bytes → Bytes
last_dot found [] = found
last_dot found (c ∷ rest) = if c == b'.' then last_dot (c ∷ rest) rest else last_dot found rest

abbrev pub ext : Bytes → Bytes
ext name = last_dot [] name

abbrev pub is_migration : Entry → Bool
is_migration entry = not entry.is_dir && bytes_eq (ext entry.name) (codes ".sql")

-- The order of `sort.Strings`.
abbrev pub before : Bytes → Bytes → Bool
before [] [] = false
before [] (d ∷ ds) = true
before (c ∷ cs) [] = false
before (c ∷ cs) (d ∷ ds) =
    let others = before cs ds in if ltb c d then true else if c == d then others else false

abbrev pub insert_entry : Entry → List Entry → List Entry
insert_entry entry [] = entry ∷ []
insert_entry entry (other ∷ rest) =
    let others = insert_entry entry rest in
    if before other.name entry.name then other ∷ others else entry ∷ (other ∷ rest)

-- The names of the loop, sorted, with the file that each one names.
unfoldable pub sorted_migrations : List Entry → List Entry
sorted_migrations [] = []
sorted_migrations (entry ∷ rest) =
    let others = sorted_migrations rest in
    if is_migration entry then insert_entry entry others else others

-- Whether `schema_migrations` is there, its names, and the scripts that took effect, oldest first.
pub record Database : Type 0 where
  pub has_table : Bool
  pub applied : List Bytes
  pub scripts : List Bytes

-- The calls for one migration; a lost commit took effect, but the client sees an error.
pub data Call : Type 0 where
  check read begin apply record_name commit lost_commit : Call

-- The calls before the loop.
pub data Setup : Type 0 where
  conn lock create_table read_dir : Setup

-- The first call that fails in a run: before the loop, and at a name.
pub record Faults : Type 0 where
  pub setup : Option Setup
  pub at : Bytes → Option Call

abbrev pub is_applied : Bytes → List Bytes → Bool
is_applied name [] = false
is_applied name (other ∷ rest) =
    let others = is_applied name rest in if bytes_eq name other then true else others

abbrev pub with_migration : Entry → Database → Database
with_migration entry db = record db {
  applied = db.applied ++ (entry.name ∷ []);
  scripts = db.scripts ++ (entry.contents ∷ []);
}

-- A migration that is not applied yet: the database after it, and whether it returned no error.
abbrev pub apply_migration : Option Call → Entry → Database → Bool × Database
apply_migration none entry db = (true, with_migration entry db)
apply_migration (some check) entry db = (false, db)
apply_migration (some read) entry db = (false, db)
apply_migration (some begin) entry db = (false, db)
apply_migration (some apply) entry db = (false, db)
apply_migration (some record_name) entry db = (false, db)
apply_migration (some commit) entry db = (false, db)
apply_migration (some lost_commit) entry db = (false, with_migration entry db)

-- A migration that is applied already is only asked for.
abbrev pub skip_migration : Option Call → Database → Bool × Database
skip_migration (some check) db = (false, db)
skip_migration _ db = (true, db)

abbrev pub run_migration : Option Call → Entry → Database → Bool × Database
run_migration call entry db =
    if is_applied entry.name db.applied
    then skip_migration call db
    else apply_migration call entry db

abbrev pub go_on : Bool × Database → (Database → Bool × Database) → Bool × Database
go_on (true, db) rest = rest db
go_on (false, db) rest = (false, db)

-- The loop over the names.
unfoldable pub run_migrations : Faults → List Entry → Database → Bool × Database
run_migrations x [] db = (true, db)
run_migrations x (entry ∷ rest) db =
    go_on (run_migration (x.at entry.name) entry db) (λ db'. run_migrations x rest db')

abbrev pub with_table : Database → Database
with_table db = record db { has_table = true }

abbrev pub after_setup : Option Setup → Faults → List Entry → Database → Bool × Database
after_setup none x entries db = run_migrations x (sorted_migrations entries) (with_table db)
after_setup (some conn) x entries db = (false, db)
after_setup (some lock) x entries db = (false, db)
after_setup (some create_table) x entries db = (false, db)
after_setup (some read_dir) x entries db = (false, with_table db)

-- Whether `Migrate` returned no error, and the database after it.
unfoldable pub migrate : Faults → List Entry → Database → Bool × Database
migrate x entries db = after_setup x.setup x entries db
