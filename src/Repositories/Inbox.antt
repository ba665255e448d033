-- ===== src/Repositories/Inbox.antt =====
-- adapters/database/repositories.py: `CommandRepository`, which receives a command once.
use mathlib.Core.Path.{fun_ext}
use sopara.Prelude.{
  ℕ, String, ◌≡◌, ap, ◌∙◌, Bool, true, false, not, ◌&&◌, none, some, List, ◌∷◌, find, str_eq,
  if◌then◌else◌, arith, eq_iff, Option-cases, Bool-cases, inl, inr, any,
}
use sopara.Errors.{Result, ok, err, idempotency_conflict, integrity_error}

-- A row of `command_inbox`, without its time.
pub record CommandRow : Type 0 where
  pub command_id : String
  pub idempotency_key : String
  pub payload_hash : String
  pub command_type : String
  pub target_type : String
  pub target_id : String
  pub expected_version : ℕ
  pub actor_email_hash : String
  pub state : String

pub record CommandReceipt : Type 0 where
  pub command_id : String
  pub state : String
  pub duplicate : Bool

-- The columns of `uq_command_idempotency_scope`.
unfoldable pub same_scope : CommandRow → CommandRow → Bool
same_scope a b =
    str_eq a.actor_email_hash b.actor_email_hash
    && (str_eq a.command_type b.command_type
        && (str_eq a.target_id b.target_id && str_eq a.idempotency_key b.idempotency_key))

-- The row that is inserted: its state is the column's default.
abbrev pub received_row : CommandRow → CommandRow
received_row command = record command { state = "RECEIVED" }

-- `insert … on conflict do nothing`, and the existing row of the scope where it did nothing. The
-- primary key admits no second row with the same id.
unfoldable pub receive : List CommandRow → CommandRow → Result (List CommandRow × CommandReceipt)
unfolding same_scope
receive inbox command = elim (find (same_scope command) inbox) [
  | some existing ↦
      if not (str_eq existing.payload_hash command.payload_hash)
      then err (idempotency_conflict "idempotency key was reused with a different payload")
      else ok (
        inbox,
        record { command_id = existing.command_id; state = existing.state; duplicate = true },
      )
  | none ↦
      if any (λ row. str_eq row.command_id command.command_id) inbox
      then err integrity_error
      else ok (
        received_row command ∷ inbox,
        record { command_id = command.command_id; state = "RECEIVED"; duplicate = false },
      )
]

-- What a later command of the same scope is answered.
abbrev pub answer : CommandReceipt → CommandReceipt
answer receipt = record receipt { duplicate = true }

same_scope_refl : (c : CommandRow) → same_scope c c ≡ true
unfolding same_scope
same_scope_refl c = ground (
  arith,
  eq_iff c.actor_email_hash c.actor_email_hash,
  eq_iff c.command_type c.command_type,
  eq_iff c.target_id c.target_id,
  eq_iff c.idempotency_key c.idempotency_key,
)

same_scope-eq :
    (b c x : CommandRow)
    → b.actor_email_hash ≡ c.actor_email_hash
    → b.command_type ≡ c.command_type
    → b.target_id ≡ c.target_id
    → b.idempotency_key ≡ c.idempotency_key
    → same_scope b x ≡ same_scope c x
unfolding same_scope
same_scope-eq b c x a t g k = rw (a, t, g, k)

-- A command that was received is received again, under the same idempotency scope, with the first
-- receipt marked as a duplicate and no change of the inbox if the payload is the same, and is a
-- conflict if it is another.
pub receive-receive :
    (inbox : List CommandRow) (command retry : CommandRow) {inbox' : List CommandRow}
    {receipt : CommandReceipt}
    → receive inbox command ≡ ok (inbox', receipt)
    → retry.actor_email_hash ≡ command.actor_email_hash
    → retry.command_type ≡ command.command_type
    → retry.target_id ≡ command.target_id
    → retry.idempotency_key ≡ command.idempotency_key
    → receive inbox' retry ≡ (
        if str_eq retry.payload_hash command.payload_hash
        then ok (inbox', answer receipt)
        else err (idempotency_conflict "idempotency key was reused with a different payload"))
unfolding receive
receive-receive inbox command retry {inbox' = after} {receipt = given} h a t g k =
    let same : same_scope retry ≡ same_scope command =
      fun_ext (λ x. same_scope-eq retry command x a t g k) in
    elim (Option-cases (find (same_scope command) inbox)) [
      | inl fresh ↦
          elim (Bool-cases (any (λ row. str_eq row.command_id command.command_id) inbox)) [
            | inl taken ↦ absurd (ground (arith, fresh, taken))
            | inr free ↦
                let mine : same_scope retry (received_row command) ≡ true =
                  same_scope-eq retry command command a t g k ∙ same_scope_refl command in
                ground (
                  arith,
                  fresh,
                  free,
                  mine,
                  eq_iff retry.payload_hash command.payload_hash,
                  eq_iff command.payload_hash retry.payload_hash,
                )
          ]
      | inr (existing, found) ↦
          let mine : find (same_scope retry) inbox ≡ some existing =
            ap (λ (p : CommandRow → Bool). find p inbox) same ∙ found in
          ground (
            arith,
            found,
            mine,
            eq_iff existing.payload_hash command.payload_hash,
            eq_iff existing.payload_hash retry.payload_hash,
            eq_iff retry.payload_hash command.payload_hash,
          )
    ]
