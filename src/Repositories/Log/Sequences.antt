-- ===== src/Repositories/Log/Sequences.antt =====
-- adapters/database/repositories.py: the events of an aggregate are numbered from 1 with no gap, and its
-- projection is at the last of them.
use sopara.Prelude.{
  ℕ, zero, suc, ◌+◌, String, ◌≡◌, not, ◌&&◌, Option, none, some, List, [], ◌∷◌, any, find, str_eq,
  if◌then◌else◌, arith, eq_iff, Bool-cases, Option-cases, inl, inr,
}
use sopara.Prelude.Int.{ℤ, pos, ◌==ℤ◌, ==ℤ_iff}
use sopara.Errors.{
  ok, >>=-returned, >>-returned, raise_when-returned, value_error, optimistic_concurrency,
  integrity_error,
}
use sopara.Canonical.{canonical_sha256, mapping}
use sopara.Events.{DomainEvent}
use sopara.Repositories.Leases.{Leases}
use sopara.Repositories.Log.{
  EventRow, Projection, Tables, Appending, is_of, concerns, version, check_token, update_projection,
  change_projection, changed_projections, projection_of, event_row, appended, append,
  payload_object, version_conflict, admits,
}

-- The events of an aggregate, the newest first.
unfoldable pub history : String → String → List EventRow → List EventRow
history type_ id [] = []
history type_ id (e ∷ rest) =
    let others = history type_ id rest in if concerns type_ id e then e ∷ others else others

-- Numbered n, n - 1, …, 1.
abbrev pub Descends : ℕ → List EventRow → Type 0
Descends zero [] = Unit
Descends zero (e ∷ rest) = ⊥
Descends (suc n) [] = ⊥
Descends (suc n) (e ∷ rest) = (e.aggregate_seq ≡ pos (suc n)) × Descends n rest

-- The version of every aggregate is the number of its events, and these are numbered from 1.
pub record IsNumbered (tables : Tables) : Type 0 where
  pub numbered :
      (type_ id : String)
      → (n : ℕ) × (version tables type_ id ≡ pos n) × Descends n (history type_ id tables.events)

-- What an append that returned has checked and left.
pub record Appended (sha256 : String → String) (leases : Leases) (now : ℕ) (tables : Tables)
    (event : DomainEvent) (a : Appending) (next : Tables) (projection : Projection) : Type 0 where
  pub payload_hash : String
  pub projections : List Projection
  pub token : check_token leases now a.lease_key a.lease_epoch ≡ ok tt
  pub follows : event.sequence ≡ pos (a.expected_version + 1)
  pub current : version tables event.aggregate_type a.aggregate_id ≡ pos a.expected_version
  pub changed :
      change_projection a.expected_version (projection_of event a) tables.projections
      ≡ some projections
  pub left : next ≡ appended tables event a payload_hash projections
  pub given : projection ≡ projection_of event a

changed_projections-some :
    (given : Option (List Projection)) {projections : List Projection}
    → changed_projections given ≡ ok projections
    → given ≡ some projections
changed_projections-some none h = cc
changed_projections-some (some changed) h = cc

module _ (sha256 : String → String) (leases : Leases) (now : ℕ) where
  pub append-Appended :
      (tables : Tables) (event : DomainEvent) (a : Appending) {next : Tables}
      {projection : Projection}
      → append sha256 leases now tables event a ≡ ok (next, projection)
      → Appended sha256 leases now tables event a next projection
  unfolding append
  append-Appended tables event a {next} {projection} h =
      let type_ = event.aggregate_type in
      let actual = version tables type_ a.aggregate_id in
      let (ids, h1) =
        raise_when-returned
          (not (str_eq a.aggregate_id event.aggregate_id && str_eq a.event_id event.event_id))
          (value_error "persisted UUIDs must match the domain event identities") _ h in
      let (follows, h2) =
        raise_when-returned (not (event.sequence ==ℤ pos (a.expected_version + 1)))
          (optimistic_concurrency "event sequence does not follow expected version") _ h1 in
      let (token, h3) = >>-returned (check_token leases now a.lease_key a.lease_epoch) _ h2 in
      let (current, h4) =
        raise_when-returned (not (actual ==ℤ pos a.expected_version))
          (optimistic_concurrency (version_conflict a.expected_version actual)) _ h3 in
      let (payload_hash, hashed, h5) =
        >>=-returned (canonical_sha256 sha256 (mapping (payload_object event.payload))) _ h4 in
      let (admitted, h6) =
        raise_when-returned (not (admits tables.events (event_row event a payload_hash)))
          integrity_error _ h5 in
      let (projections, changed, h7) =
        >>=-returned
          (changed_projections
            (change_projection a.expected_version (projection_of event a) tables.projections))
          _ h6 in
      let (fresh, h8) =
        raise_when-returned (any (λ row. str_eq row.event_id a.event_id) tables.outbox)
          integrity_error _ h7 in
      record {
        payload_hash = payload_hash;
        projections = projections;
        token = token;
        follows = ground (arith, ==ℤ_iff event.sequence (pos (a.expected_version + 1)));
        current = ground (
          arith,
          ==ℤ_iff (version tables event.aggregate_type a.aggregate_id) (pos a.expected_version),
        );
        changed = changed_projections-some _ changed;
        left = ground arith;
        given = ground arith;
      }

-- The projections after a change: the new one for its aggregate, the others as they were.
update_projection-find :
    (expected : ℤ) (new p : Projection) (ps : List Projection) {changed : List Projection}
    → find (is_of new.aggregate_type new.aggregate_id) ps ≡ some p
    → p.row_version ≡ expected
    → update_projection expected new ps ≡ some changed
    → (type_ id : String)
    → find (is_of type_ id) changed
      ≡ (if is_of type_ id new then some new else find (is_of type_ id) ps)
unfolding update_projection
update_projection-find expected new p [] found at h type_ id = ground arith
update_projection-find expected new p (q ∷ rest) {changed} found at h type_ id =
    elim (Bool-cases (is_of new.aggregate_type new.aggregate_id q)) [
      | inl same ↦ ground (
        arith,
        same,
        ==ℤ_iff q.row_version expected,
        eq_iff q.aggregate_type new.aggregate_type,
        eq_iff q.aggregate_id new.aggregate_id,
      )
      | inr other ↦ elim (Option-cases (update_projection expected new rest)) [
        | inl stuck ↦ absurd (ground (arith, other, stuck))
        | inr (later, e) ↦
            let whole : changed ≡ q ∷ later = ground (arith, other, e) in
            ground (
              arith,
              other,
              whole,
              update_projection-find expected new p rest {changed = later} (ground (arith, other))
                  at e type_ id,
              eq_iff q.aggregate_type type_,
              eq_iff q.aggregate_id id,
              eq_iff new.aggregate_type type_,
              eq_iff new.aggregate_id id,
            )
      ]
    ]

change_projection-find :
    (tables : Tables) (expected : ℕ) (new : Projection) {changed : List Projection}
    → version tables new.aggregate_type new.aggregate_id ≡ pos expected
    → change_projection expected new tables.projections ≡ some changed
    → (type_ id : String)
    → find (is_of type_ id) changed
      ≡ (if is_of type_ id new then some new else find (is_of type_ id) tables.projections)
unfolding version change_projection
change_projection-find tables zero new at h type_ id =
    elim (Bool-cases (any (is_of new.aggregate_type new.aggregate_id) tables.projections)) [
      | inl there ↦ absurd (ground (arith, there))
      | inr free ↦ ground (arith, free)
    ]
change_projection-find tables (suc k) new at h type_ id =
    elim (Option-cases (find (is_of new.aggregate_type new.aggregate_id) tables.projections)) [
      | inl absent ↦ absurd (ground (arith, absent))
      | inr (p, found) ↦
          update_projection-find (pos (suc k)) new p tables.projections found
            (ground (arith, found)) (ground arith) type_ id
    ]

module _ (sha256 : String → String) (leases : Leases) (now : ℕ) where
  -- The projection of every aggregate after an append.
  pub append-find :
      (tables : Tables) (event : DomainEvent) (a : Appending) {next : Tables}
      {projection : Projection}
      → Appended sha256 leases now tables event a next projection
      → (type_ id : String)
      → find (is_of type_ id) next.projections ≡ (
          if is_of type_ id projection
          then some projection
          else find (is_of type_ id) tables.projections)
  append-find tables event a done type_ id =
      let e =
        change_projection-find tables a.expected_version (projection_of event a) done.current
          done.changed type_ id in
      ground (arith, e, done.left, done.given)

  -- The events of every aggregate after an append.
  pub append-history :
      (tables : Tables) (event : DomainEvent) (a : Appending) {next : Tables}
      {projection : Projection} (done : Appended sha256 leases now tables event a next projection)
      (type_ id : String)
      → history type_ id next.events ≡ (
          if is_of type_ id projection
          then event_row event a done.payload_hash ∷ history type_ id tables.events
          else history type_ id tables.events)
  unfolding history
  append-history tables event a done type_ id = ground (arith, done.left, done.given)

  -- An append that returns keeps the log numbered: the version of every aggregate is the number of
  -- its events, and these are numbered from 1 with no gap.
  pub append-IsNumbered :
      (tables : Tables) (event : DomainEvent) (a : Appending) {next : Tables}
      {projection : Projection}
      → IsNumbered tables
      → append sha256 leases now tables event a ≡ ok (next, projection)
      → IsNumbered next
  unfolding version
  append-IsNumbered tables event a {next} {projection} v h =
      let done = append-Appended sha256 leases now tables event a h in
      record {
        numbered = λ type_ id.
            let (n, at, falls) = v.numbered type_ id in
            let e = append-find tables event a done type_ id in
            let p = append-history tables event a done type_ id in
            elim (Bool-cases (is_of type_ id projection)) [
              | inr other ↦ (n, ground (arith, e, other), rw (p, other) falls)
              | inl mine ↦
                  let typed : event.aggregate_type ≡ type_ =
                    ground (arith, done.given, mine, eq_iff event.aggregate_type type_) in
                  let keyed : a.aggregate_id ≡ id =
                    ground (arith, done.given, mine, eq_iff a.aggregate_id id) in
                  let current : version tables type_ id ≡ pos a.expected_version =
                    rw (typed, keyed) at (done.current) in
                  let count : n ≡ a.expected_version = ground arith in
                  (
                    suc n,
                    ground (arith, e, mine, done.follows, done.given),
                    rw (p, mine) (ground (arith, done.follows), falls),
                  )
            ];
      }
