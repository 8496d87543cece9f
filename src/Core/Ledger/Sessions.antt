-- ===== src/Core/Ledger/Sessions.antt =====
-- The sessions in ledger.rs: `upsert_session`, and the lists of the most recent ones.
use role_n.Prelude.{
  ℕ, ◌-◌, ◌^◌, String, false, not, ◌&&◌, Option, none, some, List, [], ◌∷◌, map, if◌then◌else◌,
  ◌==◌, string_eq, filter, length, take, ◌≡◌, refl, arith, ==_iff, find, Bool-cases, inl, inr,
}
use role_n.Core.Types.{Text}
use role_n.Core.Ledger.{Chrono, time_of, order_by}
use role_n.Core.Ledger.Journal.{ReadsBack}
use role_n.Core.Ledger.Usage.{Costs, fits_i64}

pub data SessionState : Type 0 where
  starting running paused migrating done failed interrupted : SessionState

pub record Session (F : Type 0) : Type 0 where
  pub id : String
  pub task_id : Option String
  pub provider_id : String
  pub model : String
  pub role : String
  pub state : SessionState
  pub tokens_in : ℕ
  pub tokens_out : ℕ
  pub cost : F
  pub started : ℕ
  pub transcript_path : Option String

pub record SessionRow (F : Type 0) : Type 0 where
  pub id : String
  pub task_id : Option String
  pub provider_id : String
  pub model : String
  pub role : String
  pub state : String
  pub tokens_in : ℕ
  pub tokens_out : ℕ
  pub cost : F
  pub started : Text
  pub transcript_path : Option String

abbrev session_state_text : SessionState → String
session_state_text starting = "starting"
session_state_text running = "running"
session_state_text paused = "paused"
session_state_text migrating = "migrating"
session_state_text done = "done"
session_state_text failed = "failed"
session_state_text interrupted = "interrupted"

abbrev session_state_of : String → SessionState
session_state_of s =
    if s == "starting"
    then starting
    else (if s == "running"
        then running
        else (if s == "paused"
            then paused
            else (if s == "migrating"
                then migrating
                else (if s == "done"
                    then done
                    else (if s == "interrupted" then interrupted else failed)))))

session_state_of-session_state_text :
    (s : SessionState) → session_state_of (session_state_text s) ≡ s
session_state_of-session_state_text starting = refl
session_state_of-session_state_text running = refl
session_state_of-session_state_text paused = refl
session_state_of-session_state_text migrating = refl
session_state_of-session_state_text done = refl
session_state_of-session_state_text failed = refl
session_state_of-session_state_text interrupted = refl

module _ {F : Type 0} (chrono : Chrono) where
  abbrev session_row : Session F → SessionRow F
  session_row s = record {
    id = s.id;
    task_id = s.task_id;
    provider_id = s.provider_id;
    model = s.model;
    role = s.role;
    state = session_state_text s.state;
    tokens_in = s.tokens_in;
    tokens_out = s.tokens_out;
    cost = s.cost;
    started = chrono.print s.started;
    transcript_path = s.transcript_path;
  }

  abbrev session_of : SessionRow F → Session F
  session_of row = record {
    id = row.id;
    task_id = row.task_id;
    provider_id = row.provider_id;
    model = row.model;
    role = row.role;
    state = session_state_of row.state;
    tokens_in = row.tokens_in;
    tokens_out = row.tokens_out;
    cost = row.cost;
    started = time_of chrono row.started;
    transcript_path = row.transcript_path;
  }

  -- `ON CONFLICT(id) DO UPDATE`: every column but the start.
  pub upsert_row : Session F → List (SessionRow F) → List (SessionRow F)
  upsert_row s [] = session_row s ∷ []
  upsert_row s (row ∷ rows) =
      let rest = upsert_row s rows in
      if row.id == s.id then record (session_row s) { started = row.started } ∷ rows else row ∷ rest

  -- `none` is an error: a number that does not fit, or a cost that is no number.
  pub upsert_session : Costs F → Session F → List (SessionRow F) → Option (List (SessionRow F))
  unfolding upsert_row
  upsert_session costs s rows =
      if fits_i64 s.tokens_in && fits_i64 s.tokens_out && costs.storable s.cost
      then some (upsert_row s rows)
      else none

  -- `ORDER BY started DESC`: rows of the same start come by falling row numbers.
  abbrev newest_first : List (SessionRow F) → List (SessionRow F)
  newest_first rows =
      order_by (λ (a b : SessionRow F). not (chrono.text_le a.started b.started)) rows

  -- `LIMIT` has no effect when it is negative as an `i64`.
  abbrev limited : ℕ → List (SessionRow F) → List (SessionRow F)
  limited limit rows = if fits_i64 limit then take limit rows else rows

  pub recent_sessions : ℕ → List (SessionRow F) → List (Session F)
  unfolding order_by
  recent_sessions limit rows = map session_of (limited limit (newest_first rows))

  pub all_sessions : List (SessionRow F) → List (Session F)
  unfolding recent_sessions
  all_sessions rows = recent_sessions (2 ^ 63 - 1) rows

  pub count_sessions_by_state : String → List (SessionRow F) → ℕ
  count_sessions_by_state state rows = length (filter (λ row. row.state == state) rows)

  abbrev as_session : Option (SessionRow F) → Option (Session F)
  as_session none = none
  as_session (some row) = some (session_of row)

  pub session_at : List (SessionRow F) → String → Option (Session F)
  session_at rows id = as_session (find (λ (row : SessionRow F). row.id == id) rows)

  -- The first start of a session stays.
  abbrev since_first : Option (Session F) → Session F → Session F
  since_first none s = s
  since_first (some old) s = record s { started = old.started }

  session_at-upsert_row :
      ReadsBack chrono
      → (s : Session F) (rows : List (SessionRow F)) (id : String)
      → session_at (upsert_row s rows) id
        ≡ (if s.id == id then some (since_first (session_at rows s.id) s) else session_at rows id)
  unfolding upsert_row session_at
  session_at-upsert_row back s [] id =
      ground (arith, back s.started, session_state_of-session_state_text s.state)
  session_at-upsert_row back s (row ∷ rows) id = ground (
    arith,
    ==_iff s.id id,
    ==_iff row.id s.id,
    ==_iff row.id id,
    session_state_of-session_state_text s.state,
    session_at-upsert_row back s rows id,
  )

  -- What the outcome of storing a session says of the session of an id.
  abbrev pub Stored :
      Costs F → Session F → List (SessionRow F) → String → Option (List (SessionRow F)) → Type 0
  Stored costs s rows id none =
      (fits_i64 s.tokens_in && fits_i64 s.tokens_out && costs.storable s.cost) ≡ false
  Stored costs s rows id (some rows') =
      session_at rows' id
      ≡ (if s.id == id then some (since_first (session_at rows s.id) s) else session_at rows id)

  -- A session that is stored is read back under its id with every field as it was stored, but for the
  -- start, which stays that of the first time; every other session is read as before. It is refused
  -- only if one of its numbers does not fit, and then nothing changes. It is supposed that a printed
  -- time is read back.
  pub upsert_session_lem :
      (costs : Costs F) (s : Session F) (rows : List (SessionRow F)) (id : String)
      → ReadsBack chrono
      → Stored costs s rows id (upsert_session costs s rows)
  unfolding upsert_session
  upsert_session_lem costs s rows id back =
      elim (Bool-cases (fits_i64 s.tokens_in && fits_i64 s.tokens_out && costs.storable s.cost)) [
        | inl e ↦ rw e (session_at-upsert_row back s rows id)
        | inr e ↦ rw e e
      ]
