-- ===== src/Runs/Sharing.antt =====
-- adapters/database/historical.py: a record's id is that of its payload, whichever run it belongs to.
use sopara.Prelude.{
  String, ◌≡◌, ◌≢◌, refl, sym, ap, ◌∙◌, ◌⊎◌, Bool, true, false, ◌&&◌, List, [], ◌∷◌, any, In,
  str_eq, arith, eq_iff, Bool-cases, inl, inr,
}
use mathlib.Core.Path.{subst}
use sopara.Errors.{Error, ok, err, >>=-returned, ok-injective, Result-cases}
use sopara.Evidence.{EvidenceClass}
use sopara.Canonical.{Object, string, canonical_sha256}
use sopara.Runs.{RecordRow}
use sopara.Runs.Records.{stable_uuid, insert_record, save_items, record_row}

abbrev has_record_id : String → RecordRow → Bool
has_record_id record_id r = str_eq r.record_id record_id

abbrev pub belongs_to : String → RecordRow → Bool
belongs_to run_id r = str_eq r.aggregate_id run_id

-- A row of this run with this payload.
abbrev has_payload : String → String → RecordRow → Bool
has_payload run_id payload_hash r =
    str_eq r.aggregate_id run_id && str_eq r.payload_hash payload_hash

no_row :
    (run_id payload_hash : String) (rows : List RecordRow)
    → any (belongs_to run_id) rows ≡ false
    → any (has_payload run_id payload_hash) rows ≡ false
no_row run_id payload_hash [] h = refl
no_row run_id payload_hash (r ∷ rows) h = ground (arith, no_row run_id payload_hash rows)

-- An insert that returns skips a payload that the run has, and else adds the row, whose id is new.
insert_record-cases :
    (new : RecordRow) (rows : List RecordRow) {next : List RecordRow}
    → insert_record new rows ≡ ok next
    → ((any (has_payload new.aggregate_id new.payload_hash) rows ≡ true) × (next ≡ rows))
      ⊎ ((any (has_record_id new.record_id) rows ≡ false) × (next ≡ new ∷ rows))
unfolding insert_record
insert_record-cases new rows h =
    elim (Bool-cases (any (has_payload new.aggregate_id new.payload_hash) rows)) [
      | inl there ↦ inl (there, ground (arith, there))
      | inr fresh ↦ elim (Bool-cases (any (has_record_id new.record_id) rows)) [
        | inl taken ↦ absurd (ground (arith, fresh, taken))
        | inr free ↦ inr (free, ground (arith, fresh, free))
      ]
    ]

module _ (sha256 uuid : String → String) (name : String) where
  save_items-others :
      (run_id other : String) (c : EvidenceClass) (items : List Object) (rows : List RecordRow)
      {next : List RecordRow}
      → save_items sha256 uuid name run_id c items rows ≡ ok next
      → run_id ≢ other
      → any (belongs_to other) rows ≡ false
      → any (belongs_to other) next ≡ false
  unfolding save_items
  save_items-others run_id other c [] rows h distinct none_there = ground arith
  save_items-others run_id other c (item ∷ items) rows h distinct none_there =
      let (h', e1, h1) = >>=-returned (canonical_sha256 sha256 item) _ h in
      let (id', e2, h2) = >>=-returned (stable_uuid sha256 uuid name (string h')) _ h1 in
      let new = record_row sha256 uuid name run_id c item h' id' in
      let (rows', e3, h3) = >>=-returned (insert_record new rows) _ h2 in
      let kept : any (belongs_to other) rows' ≡ false = elim (insert_record-cases new rows e3) [
        | inl (there, same) ↦ ground (arith, same, none_there)
        | inr (free, added) ↦ ground (arith, added, none_there, eq_iff run_id other)
      ] in
      save_items-others run_id other c items rows' h3 distinct kept

  module _ (payload : Object) (payload_hash id : String)
      (hashed : canonical_sha256 sha256 payload ≡ ok payload_hash)
      (named : stable_uuid sha256 uuid name (string payload_hash) ≡ ok id) where
    -- If the run has the payload, then the payload's id is taken.
    abbrev IsHeld : String → List RecordRow → Type 0
    IsHeld run_id rows =
        any (has_payload run_id payload_hash) rows ≡ true → any (has_record_id id) rows ≡ true

    same_id :
        (h' id' : String)
        → stable_uuid sha256 uuid name (string h') ≡ ok id'
        → h' ≡ payload_hash
        → id' ≡ id
    same_id h' id' e same =
        let both : ok id' ≡ ok id =
          sym e ∙ ap (λ (k : String). stable_uuid sha256 uuid name (string k)) same ∙ named in
        ok-injective both

    same_hash :
        (item : Object) (h' : String)
        → canonical_sha256 sha256 item ≡ ok h'
        → payload ≡ item
        → h' ≡ payload_hash
    same_hash item h' e same =
        let both : ok h' ≡ ok payload_hash =
          sym e ∙ ap (canonical_sha256 sha256) (sym same) ∙ hashed in
        ok-injective both

    insert_record-IsHeld :
        (run_id h' id' : String) (c : EvidenceClass) (item : Object) (rows : List RecordRow)
        {next : List RecordRow}
        → stable_uuid sha256 uuid name (string h') ≡ ok id'
        → insert_record (record_row sha256 uuid name run_id c item h' id') rows ≡ ok next
        → IsHeld run_id rows
        → IsHeld run_id next
          × (any (has_record_id id) rows ≡ true → any (has_record_id id) next ≡ true)
          × (h' ≡ payload_hash → any (has_record_id id) next ≡ true)
    insert_record-IsHeld run_id h' id' c item rows {next} e done held =
        let new = record_row sha256 uuid name run_id c item h' id' in
        elim (insert_record-cases new rows done) [
          | inl (there, same) ↦ (
            λ has. ground (arith, same, held, has),
            λ has. ground (arith, same, has),
            λ mine.
                let has : any (has_payload run_id payload_hash) rows ≡ true =
                  subst (λ (k : String). any (has_payload run_id k) rows ≡ true) mine there in
                ground (arith, same, held has),
          )
          | inr (free, added) ↦ (
            λ has. elim (Bool-cases (str_eq h' payload_hash)) [
              | inl mine ↦
                  let taken = same_id h' id' e ((eq_iff h' payload_hash).0 mine) in
                  ground (arith, added, eq_iff id' id, taken)
              | inr other ↦ ground (arith, added, has, other, held)
            ],
            λ has. ground (arith, added, has),
            λ mine. ground (arith, added, eq_iff id' id, same_id h' id' e mine),
          )
        ]

    save_items-IsHeld :
        (run_id : String) (c : EvidenceClass) (items : List Object) (rows : List RecordRow)
        {next : List RecordRow}
        → save_items sha256 uuid name run_id c items rows ≡ ok next
        → IsHeld run_id rows
        → (any (has_record_id id) rows ≡ true → any (has_record_id id) next ≡ true)
          × (In payload items → any (has_record_id id) next ≡ true)
    unfolding save_items
    save_items-IsHeld run_id c [] rows h held = (λ has. ground (arith, has), λ there. absurd there)
    save_items-IsHeld run_id c (item ∷ items) rows h held =
        let (h', e1, h1) = >>=-returned (canonical_sha256 sha256 item) _ h in
        let (id', e2, h2) = >>=-returned (stable_uuid sha256 uuid name (string h')) _ h1 in
        let (rows', e3, h3) =
          >>=-returned (insert_record (record_row sha256 uuid name run_id c item h' id') rows) _
            h2 in
        let (held', keeps, adds) = insert_record-IsHeld run_id h' id' c item rows e2 e3 held in
        let (keeps', adds') = save_items-IsHeld run_id c items rows' h3 held' in
        (
          λ has. keeps' (keeps has),
          λ there. elim there [
            | inl same ↦ keeps' (adds (same_hash item h' e1 same))
            | inr later ↦ adds' later
          ],
        )

    save_items-clash :
        (other : String) (c : EvidenceClass) (items : List Object) (rows : List RecordRow)
        {next : List RecordRow}
        → save_items sha256 uuid name other c items rows ≡ ok next
        → any (has_record_id id) rows ≡ true
        → any (has_payload other payload_hash) rows ≡ false
        → In payload items
        → ⊥
    unfolding save_items
    save_items-clash other c [] rows h taken fresh there = there
    save_items-clash other c (item ∷ items) rows h taken fresh there =
        let (h', e1, h1) = >>=-returned (canonical_sha256 sha256 item) _ h in
        let (id', e2, h2) = >>=-returned (stable_uuid sha256 uuid name (string h')) _ h1 in
        let new = record_row sha256 uuid name other c item h' id' in
        let (rows', e3, h3) = >>=-returned (insert_record new rows) _ h2 in
        let foreign : str_eq h' payload_hash ≡ false = elim (Bool-cases (str_eq h' payload_hash)) [
          | inr differs ↦ differs
          | inl mine ↦
              let same = (eq_iff h' payload_hash).0 mine in
              elim (insert_record-cases new rows e3) [
                | inl (has, _) ↦
                    let has' : any (has_payload other payload_hash) rows ≡ true =
                      subst (λ (k : String). any (has_payload other k) rows ≡ true) same has in
                    absurd (ground (arith, has', fresh))
                | inr (free, _) ↦
                    let free' : any (has_record_id id) rows ≡ false =
                      subst (λ (k : String). any (has_record_id k) rows ≡ false)
                        (same_id h' id' e2 same) free in
                    absurd (ground (arith, free', taken))
              ]
        ] in
        let later : In payload items = elim there [
          | inr later ↦ later
          | inl same ↦
              absurd (ground (arith, foreign, eq_iff h' payload_hash, same_hash item h' e1 same))
        ] in
        elim (insert_record-cases new rows e3) [
          | inl (_, same) ↦
              save_items-clash other c items rows' h3 (ground (arith, same, taken))
                (ground (arith, same, fresh)) later
          | inr (_, added) ↦
              save_items-clash other c items rows' h3 (ground (arith, added, taken))
                (ground (arith, added, fresh, foreign)) later
        ]

  -- A payload that was recorded has a hash, and its hash an id.
  save_items-named :
      (run_id : String) (c : EvidenceClass) (payload : Object) (items : List Object)
      (rows : List RecordRow) {next : List RecordRow}
      → save_items sha256 uuid name run_id c items rows ≡ ok next
      → In payload items
      → (payload_hash : String) × (canonical_sha256 sha256 payload ≡ ok payload_hash)
        × ((id : String) × (stable_uuid sha256 uuid name (string payload_hash) ≡ ok id))
  unfolding save_items
  save_items-named run_id c payload [] rows h there = absurd there
  save_items-named run_id c payload (item ∷ items) rows h there =
      let (h', e1, h1) = >>=-returned (canonical_sha256 sha256 item) _ h in
      let (id', e2, h2) = >>=-returned (stable_uuid sha256 uuid name (string h')) _ h1 in
      let (rows', e3, h3) =
        >>=-returned (insert_record (record_row sha256 uuid name run_id c item h' id') rows) _ h2 in
      elim there [
        | inl same ↦ (h', ap (canonical_sha256 sha256) same ∙ e1, (id', e2))
        | inr later ↦ save_items-named run_id c payload items rows' h3 later
      ]

  -- If a run has recorded a payload in a record table, then another run whose records there hold the
  -- same payload cannot record them: the insert raises. Neither run has rows in the table before.
  pub save_items-shared :
      (run_id other : String) (c d : EvidenceClass) (payload : Object) (items more : List Object)
      (rows : List RecordRow) {next : List RecordRow}
      → any (belongs_to run_id) rows ≡ false
      → any (belongs_to other) rows ≡ false
      → run_id ≢ other
      → In payload items
      → In payload more
      → save_items sha256 uuid name run_id c items rows ≡ ok next
      → (raised : Error) × (save_items sha256 uuid name other d more next ≡ err raised)
  save_items-shared run_id other c d payload items more rows {next} mine yours distinct a b h =
      elim (Result-cases (save_items sha256 uuid name other d more next)) [
        | inl failed ↦ failed
        | inr (last, saved) ↦
            let (payload_hash, hashed, (id, named)) =
              save_items-named run_id c payload items rows h a in
            let free = save_items-others run_id other c items rows h distinct yours in
            let held : IsHeld payload payload_hash id hashed named run_id rows =
              λ has. absurd (ground (arith, has, no_row run_id payload_hash rows mine)) in
            let taken =
              (save_items-IsHeld payload payload_hash id hashed named run_id c items rows h held).1
                a in
            absurd (
              save_items-clash payload payload_hash id hashed named other d more next saved taken
                (no_row other payload_hash next free) b)
      ]
