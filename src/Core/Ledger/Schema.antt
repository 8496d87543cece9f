-- ===== src/Core/Ledger/Schema.antt =====
-- The schema of the database in ledger.rs: a table is the list of its columns. `init` creates what is
-- missing, and `migrate` adds the columns that came later.
use role_n.Prelude.{
  String, Bool, true, false, ◌||◌, Option, none, some, List, [], ◌∷◌, ◌++◌, if◌then◌else◌, contains,
  string_eq, ◌≡◌, refl, arith, all, ◌&&◌, append_assoc, append-nil, ◌==◌, ==_iff, ==_refl, sym,
  Bool-cases, inl, inr,
}

pub record Tables : Type 0 where
  pub ledger_entries : Option (List String)
  pub sessions : Option (List String)
  pub write_tickets : Option (List String)

abbrev pub ledger_entries_columns : List String
ledger_entries_columns =
    "id" ∷ "session_id" ∷ "provider_id" ∷ "tokens_in" ∷ "tokens_cached" ∷ "tokens_cache_write_5m"
    ∷ "tokens_cache_write_1h" ∷ "tokens_out" ∷ "cost" ∷ "latency_ms" ∷ "ts" ∷ []

abbrev pub sessions_columns : List String
sessions_columns =
    "id" ∷ "task_id" ∷ "provider_id" ∷ "model" ∷ "role" ∷ "state" ∷ "tokens_in" ∷ "tokens_out"
    ∷ "cost" ∷ "started" ∷ "transcript_path" ∷ []

abbrev pub write_tickets_columns : List String
write_tickets_columns =
    "id" ∷ "task_id" ∷ "path" ∷ "op" ∷ "payload" ∷ "base_hash" ∷ "state" ∷ "ts" ∷ []

-- `CREATE TABLE IF NOT EXISTS`
abbrev create_table : List String → Option (List String) → List String
create_table columns none = columns
create_table columns (some table) = table

-- `if !has_column(…) { ALTER TABLE … ADD COLUMN … }`
abbrev pub add_column : String → List String → List String
add_column column table = if contains table column then table else table ++ column ∷ []

-- The loop over the columns.
abbrev pub add_columns : List String → List String → List String
add_columns [] table = table
add_columns (column ∷ columns) table = add_columns columns (add_column column table)

abbrev cache_columns : List String
cache_columns = "tokens_cached" ∷ "tokens_cache_write_5m" ∷ "tokens_cache_write_1h" ∷ []

pub init : Tables → Tables
init db = record {
  ledger_entries =
      some (add_columns cache_columns (create_table ledger_entries_columns db.ledger_entries));
  sessions = some (add_column "role" (create_table sessions_columns db.sessions));
  write_tickets = some (create_table write_tickets_columns db.write_tickets);
}

contains-append :
    (xs : List String) (a b : String) → contains (xs ++ a ∷ []) b ≡ (contains xs b || (a == b))
contains-append [] a b = ground arith
contains-append (x ∷ xs) a b = ground (arith, contains-append xs a b)

contains-add_column :
    (a b : String) (table : List String)
    → contains (add_column a table) b ≡ (contains table b || (a == b))
contains-add_column a b table = ground (arith, ==_iff a b, contains-append table a b)

contains-add_columns :
    (columns table : List String) (b : String)
    → contains (add_columns columns table) b ≡ (contains table b || contains columns b)
contains-add_columns [] table b = ground arith
contains-add_columns (a ∷ columns) table b =
    ground
      (arith, contains-add_column a b table, contains-add_columns columns (add_column a table) b)

-- What is added stands behind the columns that are there.
add_columns-prefix :
    (columns table : List String)
    → (more : List String) × (add_columns columns table ≡ table ++ more)
add_columns-prefix [] table = ([], sym (append-nil table))
add_columns-prefix (a ∷ columns) table = elim (Bool-cases (contains table a)) [
  | inl e ↦ let (more, p) = add_columns-prefix columns table in (more, rw e p)
  | inr e ↦
      let (more, p) = add_columns-prefix columns (table ++ a ∷ []) in
      (a ∷ more, rw (e, p, append_assoc table (a ∷ []) more) refl)
]

-- Adding columns that are there changes nothing.
add_columns-there :
    (columns table : List String)
    → all (λ a. contains table a) columns ≡ true
    → add_columns columns table ≡ table
add_columns-there [] table h = refl
add_columns-there (a ∷ columns) table h = ground (arith, h, add_columns-there columns table)

-- `all` of the columns are in a table, which is there.
abbrev has_all : List String → Option (List String) → Bool
has_all columns none = false
has_all columns (some table) = all (λ a. contains table a) columns

abbrev or_none : Option (List String) → List String
or_none none = []
or_none (some table) = table

abbrev is_prefix : List String → List String → Bool
is_prefix [] ys = true
is_prefix (x ∷ xs) [] = false
is_prefix (x ∷ xs) (y ∷ ys) = x == y && is_prefix xs ys

is_prefix-append : (xs ys : List String) → is_prefix xs (xs ++ ys) ≡ true
is_prefix-append [] ys = refl
is_prefix-append (x ∷ xs) ys = ground (arith, ==_refl x, is_prefix-append xs ys)

is_prefix-add_columns :
    (columns fresh : List String) (table : Option (List String))
    → is_prefix (or_none table) (add_columns columns (create_table fresh table)) ≡ true
is_prefix-add_columns columns fresh none = refl
is_prefix-add_columns columns fresh (some table) =
    let (more, e) = add_columns-prefix columns table in rw e (is_prefix-append table more)

cache_columns-there :
    (table : List String) → has_all cache_columns (some (add_columns cache_columns table)) ≡ true
cache_columns-there table =
    let there = contains-add_columns cache_columns table in
    ground
      (arith, there "tokens_cached", there "tokens_cache_write_5m", there "tokens_cache_write_1h")

role-there : (table : List String) → contains (add_column "role" table) "role" ≡ true
role-there table = ground (arith, contains-add_column "role" "role" table)

abbrev pub empty : Tables
empty = record { ledger_entries = none; sessions = none; write_tickets = none }

-- `init` brings a database of any earlier version to one with the columns that were added later; the
-- columns of a table that exists keep their places, with the new ones behind them; a new database has
-- every column; and a second `init` changes nothing.
pub init_lem :
    (db : Tables)
    → (has_all cache_columns (init db).ledger_entries ≡ true)
      × (has_all ("role" ∷ []) (init db).sessions ≡ true)
      × (is_prefix (or_none db.ledger_entries) (or_none (init db).ledger_entries) ≡ true)
      × (is_prefix (or_none db.sessions) (or_none (init db).sessions) ≡ true)
      × (is_prefix (or_none db.write_tickets) (or_none (init db).write_tickets) ≡ true)
      × (has_all ledger_entries_columns (init empty).ledger_entries ≡ true)
      × (has_all sessions_columns (init empty).sessions ≡ true)
      × (init (init db) ≡ init db)
unfolding init
init_lem db =
    let entries = create_table ledger_entries_columns db.ledger_entries in
    let sessions = create_table sessions_columns db.sessions in
    let there = cache_columns-there entries in
    let role = role-there sessions in
    (
      there,
      ground (arith, role),
      is_prefix-add_columns cache_columns ledger_entries_columns db.ledger_entries,
      is_prefix-add_columns ("role" ∷ []) sessions_columns db.sessions,
      is_prefix-add_columns [] write_tickets_columns db.write_tickets,
      refl,
      refl,
      rw
          (
            add_columns-there cache_columns (add_columns cache_columns entries) there,
            add_columns-there ("role" ∷ []) (add_column "role" sessions) (ground (arith, role)),
          )
          refl,
    )
