-- ===== src/Core/Ledger/Counts.antt =====
-- What `ticket_counts_since` and `queued_ticket_count` of ledger.rs count.
use role_n.Prelude.{
  ℕ, ◌+◌, String, ◌≡◌, refl, sym, Bool, true, false, ◌&&◌, ◌||◌, List, [], ◌∷◌, ◌++◌, if◌then◌else◌,
  ◌==◌, ==_iff, string_eq, filter, length, arith, All,
}
use role_n.Core.Types.{Text, TicketState, queued, applied, rejected, WriteTicket}
use role_n.Core.Ledger.{
  Chrono, TicketRow, state_text, ticket_row, insert_ticket, set_ticket_state, has_state,
  queued_ticket_count, bump, group_by_state, TicketCounts, assign_counts, ticket_counts_since,
  recent,
}
use role_n.Core.Ledger.Journal.{JournalOp, submit, settle, run}

abbrev Groups : Type 0
Groups = List (String × ℕ)

abbrev has_key : String → Groups → Bool
has_key s [] = false
has_key s ((t, n) ∷ groups) = t == s || has_key s groups

abbrev Distinct : Groups → Type 0
Distinct [] = Unit
Distinct ((t, n) ∷ groups) = (has_key t groups ≡ false) × Distinct groups

abbrev count_in : String → Groups → ℕ
count_in s [] = 0
count_in s ((t, n) ∷ groups) = let rest = count_in s groups in if t == s then n else rest

abbrev known : String → Bool
known s = s == "queued" || s == "applied" || s == "rejected"

abbrev KnownKeys : Groups → Type 0
KnownKeys groups = All (λ (g : String × ℕ). known g.0 ≡ true) groups

abbrev KnownStates : List TicketRow → Type 0
KnownStates rows = All (λ (row : TicketRow). known row.state ≡ true) rows

-- Two different texts are not both equal to a third.
one_of_two : (s a b : String) → (a == b) ≡ false → ((s == a) && (s == b)) ≡ false
one_of_two s a b h = ground (arith, ==_iff s a, ==_iff s b, ==_iff a b)

one_state :
    (s : String)
    → (((s == "applied") && (s == "rejected")) ≡ false)
      × (((s == "applied") && (s == "queued")) ≡ false)
      × (((s == "rejected") && (s == "queued")) ≡ false)
one_state s = (
  one_of_two s "applied" "rejected" refl,
  one_of_two s "applied" "queued" refl,
  one_of_two s "rejected" "queued" refl,
)

has_key-bump :
    (s k : String) (groups : Groups) → has_key k (bump s groups) ≡ (s == k || has_key k groups)
unfolding bump
has_key-bump s k [] = ground arith
has_key-bump s k ((t, n) ∷ groups) =
    ground (arith, ==_iff t s, ==_iff t k, ==_iff s k, has_key-bump s k groups)

bump-Distinct : (s : String) (groups : Groups) → Distinct groups → Distinct (bump s groups)
unfolding bump
bump-Distinct s [] d = (refl, tt)
bump-Distinct s ((t, n) ∷ groups) (h, d) =
    ground (arith, ==_iff t s, ==_iff s t, has_key-bump s t groups, bump-Distinct s groups d)

count_in-bump :
    (s k : String) (groups : Groups)
    → count_in k (bump s groups) ≡ count_in k groups + (if s == k then 1 else 0)
unfolding bump
count_in-bump s k [] = ground arith
count_in-bump s k ((t, n) ∷ groups) =
    ground (arith, ==_iff t s, ==_iff t k, ==_iff s k, count_in-bump s k groups)

bump-KnownKeys :
    (s : String) (groups : Groups) → known s ≡ true → KnownKeys groups → KnownKeys (bump s groups)
unfolding bump
bump-KnownKeys s [] e a = (e, tt)
bump-KnownKeys s ((t, n) ∷ groups) e (f, a) = ground (arith, bump-KnownKeys s groups e a)

groups_lem :
    (rows : List TicketRow)
    → KnownStates rows
    → Distinct (group_by_state rows) × KnownKeys (group_by_state rows)
unfolding group_by_state
groups_lem [] a = (tt, tt)
groups_lem (row ∷ rows) (e, a) =
    let (d, keys) = groups_lem rows a in
    (
      bump-Distinct row.state (group_by_state rows) d,
      bump-KnownKeys row.state (group_by_state rows) e keys,
    )

count_in-group_by_state :
    (s : String) (rows : List TicketRow)
    → count_in s (group_by_state rows) ≡ length (filter (has_state s) rows)
unfolding group_by_state
count_in-group_by_state s [] = refl
count_in-group_by_state s (row ∷ rows) =
    ground (arith, count_in-group_by_state s rows, count_in-bump row.state s (group_by_state rows))

-- A key that is there overwrites the counter, one that is not leaves it.
abbrev or_start : String → Groups → ℕ → ℕ
or_start s groups start = if has_key s groups then count_in s groups else start

assign_counts_lem :
    (groups : Groups) (c : TicketCounts)
    → Distinct groups
    → KnownKeys groups
    → (record {
      applied = or_start "applied" groups c.applied;
      rejected = or_start "rejected" groups c.rejected;
      queued = or_start "queued" groups c.queued;
    }
        ≡ assign_counts groups c)
unfolding assign_counts
assign_counts_lem [] c d a = refl
assign_counts_lem ((t, n) ∷ groups) c (h, d) (e, a) = ground (
  arith,
  one_state t,
  ==_iff t "applied",
  ==_iff t "rejected",
  ==_iff t "queued",
  assign_counts_lem groups (record c { applied = n }) d a,
  assign_counts_lem groups (record c { rejected = n }) d a,
  assign_counts_lem groups (record c { queued = n }) d a,
)

missing-zero : (s : String) (groups : Groups) → or_start s groups 0 ≡ count_in s groups
missing-zero s [] = refl
missing-zero s ((t, n) ∷ groups) = ground (arith, missing-zero s groups)

counts-known :
    (chrono : Chrono) (since : Text) (rows : List TicketRow)
    → KnownStates (recent chrono since rows)
    → (ticket_counts_since chrono since rows ≡ record {
      applied = length (filter (has_state "applied") (recent chrono since rows));
      rejected = length (filter (has_state "rejected") (recent chrono since rows));
      queued = queued_ticket_count (recent chrono since rows);
    })
unfolding ticket_counts_since queued_ticket_count
counts-known chrono since rows a =
    let now = recent chrono since rows in
    let (d, keys) = groups_lem now a in
    let start : TicketCounts = record { applied = 0; rejected = 0; queued = 0 } in
    let e = sym (assign_counts_lem (group_by_state now) start d keys) in
    rw e (
      rw
        (
          missing-zero "applied" (group_by_state now),
          missing-zero "rejected" (group_by_state now),
          missing-zero "queued" (group_by_state now),
          count_in-group_by_state "applied" now,
          count_in-group_by_state "rejected" now,
          count_in-group_by_state "queued" now,
        )
        refl)

known-state_text : (s : TicketState) → known (state_text s) ≡ true
known-state_text queued = refl
known-state_text applied = refl
known-state_text rejected = refl

recent-KnownStates :
    (chrono : Chrono) (since : Text) (rows : List TicketRow)
    → KnownStates rows
    → KnownStates (recent chrono since rows)
recent-KnownStates chrono since [] a = tt
recent-KnownStates chrono since (row ∷ rows) (e, a) =
    ground (arith, recent-KnownStates chrono since rows a)

append-KnownStates :
    (rows : List TicketRow) (new : TicketRow)
    → KnownStates rows
    → known new.state ≡ true
    → KnownStates (rows ++ new ∷ [])
append-KnownStates [] new a e = (e, tt)
append-KnownStates (row ∷ rows) new (f, a) e = (f, append-KnownStates rows new a e)

insert_ticket-KnownStates :
    (chrono : Chrono) (t : WriteTicket) (rows : List TicketRow)
    → KnownStates rows
    → KnownStates (insert_ticket chrono t rows)
unfolding insert_ticket
insert_ticket-KnownStates chrono t rows a =
    ground (arith, append-KnownStates rows (ticket_row chrono t) a (known-state_text t.state))

set_ticket_state-KnownStates :
    (id : String) (state : TicketState) (rows : List TicketRow)
    → KnownStates rows
    → KnownStates (set_ticket_state id state rows)
unfolding set_ticket_state
set_ticket_state-KnownStates id state [] a = tt
set_ticket_state-KnownStates id state (row ∷ rows) (e, a) =
    ground (arith, known-state_text state, set_ticket_state-KnownStates id state rows a)

run-KnownStates :
    (chrono : Chrono) (ops : List JournalOp) (rows : List TicketRow)
    → KnownStates rows
    → KnownStates (run chrono ops rows)
unfolding run
run-KnownStates chrono [] rows a = a
run-KnownStates chrono (submit t ∷ ops) rows a =
    run-KnownStates chrono ops (insert_ticket chrono t rows)
      (insert_ticket-KnownStates chrono t rows a)
run-KnownStates chrono (settle id state ∷ ops) rows a =
    run-KnownStates chrono ops (set_ticket_state id state rows)
      (set_ticket_state-KnownStates id state rows a)

states-total :
    (rows : List TicketRow)
    → KnownStates rows
    → length (filter (has_state "applied") rows)
        + length (filter (has_state "rejected") rows)
        + queued_ticket_count rows
      ≡ length rows
unfolding queued_ticket_count
states-total [] a = refl
states-total (row ∷ rows) (e, a) = ground (arith, one_state row.state, states-total rows a)

-- After any submissions and verdicts, the three counts since a time are those of the applied, the
-- rejected and the queued rows since then, although each group assigns its counter; and together they
-- are all the rows since then.
pub ticket_counts_since_lem :
    (chrono : Chrono) (ops : List JournalOp) (since : Text)
    → let rows = recent chrono since (run chrono ops []) in
      let counts = ticket_counts_since chrono since (run chrono ops []) in
      (counts ≡ record {
        applied = length (filter (has_state "applied") rows);
        rejected = length (filter (has_state "rejected") rows);
        queued = queued_ticket_count rows;
      })
      × (counts.applied + counts.rejected + counts.queued ≡ length rows)
ticket_counts_since_lem chrono ops since =
    let all = run chrono ops [] in
    let a = recent-KnownStates chrono since all (run-KnownStates chrono ops [] tt) in
    let e = counts-known chrono since all a in (e, rw e (states-total (recent chrono since all) a))
