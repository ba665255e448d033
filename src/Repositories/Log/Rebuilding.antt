-- ===== src/Repositories/Log/Rebuilding.antt =====
-- adapters/database/repositories.py: the projections that are rebuilt from the log are those that the
-- appends have kept.
use sopara.Prelude.{
  ℕ, zero, suc, ◌≤◌, String, ◌≡◌, refl, sym, ap, ◌∙◌, Bool, true, ◌&&◌, Option, none, some, List,
  [], ◌∷◌, find, arith, eq_iff, Bool-cases, inl, inr, All, lookup,
}
use sopara.Prelude.Int.{pos}
use sopara.Errors.{ok}
use sopara.Events.{DomainEvent}
use sopara.Repositories.Leases.{Leases}
use sopara.Repositories.Log.{
  EventRow, Projection, Tables, Appending, is_of, concerns, append, is_latest, rebuild,
  rebuild_projections,
}
use sopara.Repositories.Log.Sequences.{
  history, Descends, IsNumbered, append-Appended, append-find, append-history,
}

-- The event names the state that it leads to.
abbrev Stated : EventRow → Type 0
Stated e = (state : String) × (lookup "to_state" e.payload ≡ some state)

abbrev state_row : EventRow → String → Projection
state_row e state = record {
  aggregate_type = e.aggregate_type;
  aggregate_id = e.aggregate_id;
  state = state;
  row_version = e.aggregate_seq;
  last_event_id = e.event_id;
}

abbrev projected_by : Option EventRow → Option Projection
projected_by none = none
projected_by (some e) = elim (lookup "to_state" e.payload) [
  | none ↦ none
  | some state ↦ some (state_row e state)
]

abbrev head? : List EventRow → Option EventRow
head? [] = none
head? (e ∷ rest) = some e

-- Every projection is what the last event of its aggregate says.
pub record IsProjected (tables : Tables) : Type 0 where
  pub stated : All Stated tables.events
  pub projected :
      (type_ id : String)
      → find (is_of type_ id) tables.projections
        ≡ projected_by (head? (history type_ id tables.events))

-- An append of an event whose payload names the projection's state keeps the projections as the log
-- has them.
pub append-IsProjected :
    (sha256 : String → String) (leases : Leases) (now : ℕ) (tables : Tables) (event : DomainEvent)
    (a : Appending) {next : Tables} {projection : Projection}
    → IsProjected tables
    → lookup "to_state" event.payload ≡ some a.projection_state
    → append sha256 leases now tables event a ≡ ok (next, projection)
    → IsProjected next
append-IsProjected sha256 leases now tables event a {next} {projection} v names h =
    let done = append-Appended sha256 leases now tables event a h in
    record {
      stated = rw (done.left) ((a.projection_state, names), v.stated);
      projected = λ type_ id.
          let e = append-find sha256 leases now tables event a done type_ id in
          let p = append-history sha256 leases now tables event a done type_ id in
          elim (Bool-cases (is_of type_ id projection)) [
            | inl mine ↦ ground (arith, e, p, mine, names, done.given)
            | inr other ↦ ground (arith, e, p, other, v.projected type_ id)
          ];
    }

rebuild-find :
    (events es : List EventRow)
    → All Stated es
    → (ps : List Projection) × (rebuild events es ≡ ok ps)
      × ((type_ id : String)
          → find (is_of type_ id) ps
            ≡ projected_by (find (λ e. concerns type_ id e && is_latest events e) es))
unfolding rebuild
rebuild-find events [] s = ([], refl, λ type_ id. refl)
rebuild-find events (e ∷ es) ((state, names), s) =
    let (ps, done, finds) = rebuild-find events es s in
    elim (Bool-cases (is_latest events e)) [
      | inr old ↦ (ps, ground (arith, old, done), λ type_ id. ground (arith, old, finds type_ id))
      | inl latest ↦ (
        state_row e state ∷ ps,
        ground (arith, latest, names, done),
        λ type_ id. ground (arith, latest, names, finds type_ id),
      )
    ]

find-history :
    (q : EventRow → Bool) (type_ id : String) (es : List EventRow)
    → find (λ e. concerns type_ id e && q e) es ≡ find q (history type_ id es)
unfolding history
find-history q type_ id [] = refl
find-history q type_ id (e ∷ es) = ground (arith, find-history q type_ id es)

history-concerns :
    (type_ id : String) (es : List EventRow) {e : EventRow}
    → head? (history type_ id es) ≡ some e
    → (e.aggregate_type ≡ type_) × (e.aggregate_id ≡ id)
unfolding history
history-concerns type_ id [] h = cc
history-concerns type_ id (f ∷ es) {e} h = elim (Bool-cases (concerns type_ id f)) [
  | inl mine ↦ ground (arith, mine, eq_iff f.aggregate_type type_, eq_iff f.aggregate_id id)
  | inr other ↦ history-concerns type_ id es {e = e} (ground (arith, other))
]

below :
    (n m : ℕ) (e : EventRow) (es : List EventRow)
    → Descends n (history e.aggregate_type e.aggregate_id es)
    → n ≤ m
    → e.aggregate_seq ≡ pos m
    → is_latest es e ≡ true
unfolding history is_latest
below n m e [] falls bound at = refl
below zero m e (f ∷ es) falls bound at =
    elim (Bool-cases (concerns e.aggregate_type e.aggregate_id f)) [
      | inl mine ↦ absurd (rw mine at falls)
      | inr other ↦
          let rest = below zero m e es (rw other at falls) bound at in ground (arith, other, rest)
    ]
below (suc n) m e (f ∷ es) falls bound at =
    elim (Bool-cases (concerns e.aggregate_type e.aggregate_id f)) [
      | inl mine ↦
          let (here, later) : (f.aggregate_seq ≡ pos (suc n))
              × Descends n (history e.aggregate_type e.aggregate_id es) =
            rw mine at falls in
          let rest = below n m e es later (omega arith) at in ground (arith, mine, here, rest)
      | inr other ↦
          let rest = below (suc n) m e es (rw other at falls) bound at in
          ground (arith, other, rest)
    ]

head-is_latest :
    (n : ℕ) (type_ id : String) (events newest : List EventRow)
    → history type_ id events ≡ newest
    → Descends n newest
    → find (is_latest events) newest ≡ head? newest
head-is_latest n type_ id events [] same falls = refl
head-is_latest zero type_ id events (e ∷ rest) same falls = absurd falls
head-is_latest (suc n) type_ id events (e ∷ rest) same (at, falls) =
    let (typed, keyed) = history-concerns type_ id events {e = e} (ap head? same) in
    let whole : history e.aggregate_type e.aggregate_id events ≡ e ∷ rest =
      ap (λ (t : String). history t e.aggregate_id events) typed
      ∙ ap (λ (k : String). history type_ k events) keyed
      ∙ same in
    let latest = below (suc n) (suc n) e events (rw whole (at, falls)) (omega arith) at in
    ground (arith, latest)

-- The newest event of the aggregate is the only one of rank 1.
find-head :
    (n : ℕ) (type_ id : String) (events : List EventRow)
    → Descends n (history type_ id events)
    → find (is_latest events) (history type_ id events) ≡ head? (history type_ id events)
find-head n type_ id events falls =
    head-is_latest n type_ id events (history type_ id events) refl falls

-- If the log is numbered and every projection is what the last event of its aggregate says, then
-- the rebuild of the projections returns, leaves the events alone, and finds for every aggregate
-- the projection that it had.
pub rebuild_projections-find :
    (tables : Tables)
    → IsNumbered tables
    → IsProjected tables
    → (next : Tables) × (rebuilt : List Projection) × (rebuild_projections tables
        ≡ ok (next, rebuilt))
      × (next.events ≡ tables.events)
      × ((type_ id : String)
          → find (is_of type_ id) next.projections ≡ find (is_of type_ id) tables.projections)
unfolding rebuild_projections
rebuild_projections-find tables v w =
    let (ps, done, finds) = rebuild-find tables.events tables.events w.stated in
    (
      record tables { projections = ps },
      ps,
      ground (arith, done),
      refl,
      λ type_ id.
          let (n, at, falls) = v.numbered type_ id in
          finds type_ id
          ∙ ap projected_by (
              find-history (is_latest tables.events) type_ id tables.events
              ∙ find-head n type_ id tables.events falls)
          ∙ sym (w.projected type_ id),
    )
