-- ===== src/Core/Ledger/Entries.antt =====
-- What `record`, `probe`, `all_entries` and `all_tickets` of ledger.rs do to the rows and read back.
use role_n.Prelude.{
  ℕ, ◌^◌, ◌<◌, String, ◌≡◌, refl, ◌∙◌, ap, Bool, false, not, ◌&&◌, ◌||◌, Option, none, some, List,
  [], ◌∷◌, ◌++◌, map, leb, ◌==◌, ==_iff, string_eq, filter, arith, All, Bool-cases, Option-cases,
  inl, inr,
}
use role_n.Core.Types.{WriteTicket}
use role_n.Core.Ledger.{Chrono, ticket_row, ticket_of, all_tickets, insert_row, order_by, TicketRow}
use role_n.Core.Ledger.Journal.{ReadsBack, ticket_of-ticket_row}
use role_n.Core.Ledger.Usage.{
  Costs, LedgerEntry, EntryRow, fits_row, has_id, entry_row, entry_of, record_entry, all_entries,
  probe, probe_row,
}

-- The order of the printed times is that of the times.
abbrev pub OrdersTimes : Chrono → Type 0
OrdersTimes chrono = (a b : ℕ) → chrono.text_le (chrono.print a) (chrono.print b) ≡ leb a b

module _ {A B : Type 0} (f : A → B) (le : B → B → Bool) (le' : A → A → Bool) where
  abbrev Agree : Type 0
  Agree = (a b : A) → le (f a) (f b) ≡ le' a b

  insert_row-map :
      Agree
      → (a : A) (rows : List A) → insert_row le (f a) (map f rows) ≡ map f (insert_row le' a rows)
  unfolding insert_row
  insert_row-map agree a [] = refl
  insert_row-map agree a (b ∷ rows) = ground (arith, agree a b, insert_row-map agree a rows)

  order_by-map : Agree → (rows : List A) → order_by le (map f rows) ≡ map f (order_by le' rows)
  unfolding order_by
  order_by-map agree [] = refl
  order_by-map agree (a ∷ rows) =
      rw (order_by-map agree rows) (insert_row-map agree a (order_by le' rows))

module _ {A : Type 0} (le : A → A → Bool) (P : A → Type 0) where
  insert_row-All : (a : A) (rows : List A) → P a → All P rows → All P (insert_row le a rows)
  unfolding insert_row
  insert_row-All a [] p ps = (p, tt)
  insert_row-All a (b ∷ rows) p (q, ps) = elim (Bool-cases (le a b)) [
    | inl e ↦ rw e (p, (q, ps))
    | inr e ↦ rw e (q, insert_row-All a rows p ps)
  ]

  order_by-All : (rows : List A) → All P rows → All P (order_by le rows)
  unfolding order_by
  order_by-All [] ps = tt
  order_by-All (a ∷ rows) (p, ps) = insert_row-All a (order_by le rows) p (order_by-All rows ps)

trivial : {A : Type 0} (xs : List A) → All {0, 0} (λ (_ : A). Unit) xs
trivial [] = tt
trivial (x ∷ xs) = (tt, trivial xs)

map_back :
    {A B : Type 0} (f : A → B) (g : B → A) (P : A → Type 0)
    → ((a : A) → P a → g (f a) ≡ a)
    → (xs : List A) → All P xs
    → map g (map f xs) ≡ xs
map_back f g P back [] ps = refl
map_back f g P back (x ∷ xs) (p, ps) = rw (back x p, map_back f g P back xs ps) refl

-- The milliseconds fit the 64 bits of the program's numbers.
abbrev Milliseconds : Option ℕ → Type 0
Milliseconds none = Unit
Milliseconds (some v) = v < 2 ^ 64

module _ {F : Type 0} (costs : Costs F) (chrono : Chrono) where
  abbrev pub Latency : LedgerEntry F → Type 0
  Latency e = Milliseconds e.latency_ms

  entry_of-entry_row :
      ReadsBack chrono
      → (e : LedgerEntry F) → Latency e
      → entry_of costs chrono (entry_row costs chrono e) ≡ e
  entry_of-entry_row back e l = elim (Option-cases e.latency_ms) [
    | inl n ↦ ground (arith, back e.ts, n)
    | inr (v, n) ↦ ground (arith, back e.ts, n, l)
  ]

  -- The export of the ledger: entries that were recorded are listed again, every field as it was, in
  -- the order of their times, those of one time as they were recorded; and so are the tickets of the
  -- journal. It is supposed that a printed time is read back and that texts order the times.
  pub all_entries_lem :
      (es : List (LedgerEntry F)) (ts : List WriteTicket)
      → ReadsBack chrono
      → OrdersTimes chrono
      → All Latency es
      → (all_entries costs chrono (map (entry_row costs chrono) es)
          ≡ order_by (λ (a b : LedgerEntry F). leb a.ts b.ts) es)
        × (all_tickets chrono (map (ticket_row chrono) ts)
            ≡ order_by (λ (a b : WriteTicket). leb a.ts b.ts) ts)
  unfolding all_entries all_tickets
  all_entries_lem es ts back orders ls =
      let le = λ (a b : LedgerEntry F). leb a.ts b.ts in
      let le' = λ (a b : WriteTicket). leb a.ts b.ts in
      let rows = λ (a b : EntryRow F). chrono.text_le a.ts b.ts in
      let rows' = λ (a b : TicketRow). chrono.text_le a.ts b.ts in
      (
        ap (map (entry_of costs chrono))
              (order_by-map (entry_row costs chrono) rows le (λ a b. orders a.ts b.ts) es)
            ∙ map_back (entry_row costs chrono) (entry_of costs chrono) Latency
                (entry_of-entry_row back) (order_by le es) (order_by-All le Latency es ls),
        ap (map (ticket_of chrono))
              (order_by-map (ticket_row chrono) rows' le' (λ a b. orders a.ts b.ts) ts)
            ∙ map_back (ticket_row chrono) (ticket_of chrono) (λ _. Unit)
                (λ t _. ticket_of-ticket_row chrono back t) (order_by le' ts)
                (order_by-All le' (λ _. Unit) ts (trivial ts)),
      )

  has_id-append :
      (id : String) (rows : List (EntryRow F)) (new : EntryRow F)
      → has_id id (rows ++ new ∷ []) ≡ (has_id id rows || (new.id == id))
  has_id-append id [] new = ground arith
  has_id-append id (row ∷ rows) new = ground (arith, has_id-append id rows new)

  without_probe :
      (rows : List (EntryRow F))
      → has_id "__probe__" rows ≡ false
      → filter (λ row. not (row.id == "__probe__")) rows ≡ rows
  without_probe [] h = refl
  without_probe (row ∷ rows) h = ground (arith, h, without_probe rows)

  filter-probe :
      (rows : List (EntryRow F))
      → filter
          (λ (row : EntryRow F). not (row.id == "__probe__"))
          (rows ++ probe_row costs chrono ∷ [])
        ≡ filter (λ row. not (row.id == "__probe__")) rows
  filter-probe [] = refl
  filter-probe (row ∷ rows) = ground (arith, filter-probe rows)

  -- No two rows have one id.
  abbrev pub UniqueIds : List (EntryRow F) → Type 0
  UniqueIds [] = Unit
  UniqueIds (row ∷ rows) = (has_id row.id rows ≡ false) × UniqueIds rows

  UniqueIds-append :
      (rows : List (EntryRow F)) (new : EntryRow F)
      → UniqueIds rows
      → has_id new.id rows ≡ false
      → UniqueIds (rows ++ new ∷ [])
  UniqueIds-append [] new u h = (refl, tt)
  UniqueIds-append (row ∷ rows) new (f, u) h = ground (
    arith,
    ==_iff new.id row.id,
    ==_iff row.id new.id,
    has_id-append row.id rows new,
    UniqueIds-append rows new u,
  )

  -- What recording an entry does to the rows.
  abbrev pub Recorded : LedgerEntry F → List (EntryRow F) → Option (List (EntryRow F)) → Type 0
  Recorded e rows none =
      (fits_row e.usage && costs.storable e.cost && not (has_id e.id rows)) ≡ false
  Recorded e rows (some rows') =
      UniqueIds rows' × (rows' ≡ rows ++ entry_row costs chrono e ∷ []) × (has_id e.id rows ≡ false)

  -- An entry is recorded behind the others, and the ids stay different; it is refused exactly if a
  -- number does not fit the column or the id is taken. The probe of the doctor leaves the rows as they
  -- are, unless one has the id of the probe.
  pub record_entry_lem :
      (e : LedgerEntry F) (rows : List (EntryRow F))
      → UniqueIds rows
      → has_id "__probe__" rows ≡ false
      → Recorded e rows (record_entry costs chrono e rows) × (probe costs chrono rows ≡ rows)
  unfolding record_entry probe
  record_entry_lem e rows u h = (
    elim (Bool-cases (fits_row e.usage && costs.storable e.cost && not (has_id e.id rows))) [
      | inl f ↦
          let fresh : has_id e.id rows ≡ false = ground (arith, f) in
          rw f (UniqueIds-append rows (entry_row costs chrono e) u fresh, refl, fresh)
      | inr f ↦ rw f f
    ],
    rw h (filter-probe rows ∙ without_probe rows h),
  )
