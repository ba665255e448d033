-- ===== src/Repositories/Fencing.antt =====
-- adapters/database/repositories.py: a lease has one holder at a time, and its epochs fence off the
-- earlier ones.
use sopara.Prelude.{
  ℕ, ◌+◌, ◌≤◌, ◌<◌, String, ◌≡◌, ◌≢◌, true, false, none, some, lookup, arith, eq_iff, lookup-insert,
  Option-cases, Bool-cases, inl, inr, List, [], ◌∷◌,
}
use sopara.Prelude.Int.{ℤ, pos, negsuc}
use sopara.Errors.{ok, err, stale_lease}
use sopara.Repositories.Leases.{
  LeaseRow, Lease, Leases, held_row, acquire, heartbeat, token_is_live,
}

-- One call on the table of leases, at its time.
pub data Call : Type 0 where
  acquiring : (now : ℕ) (key holder : String) (ttl : ℤ) → Call
  beating : (now : ℕ) (key holder : String) (epoch ttl : ℕ) → Call

-- The table after a call: an error leaves it as it was.
unfoldable pub after_call : Leases → Call → Leases
unfolding acquire heartbeat
after_call leases (acquiring now key holder ttl) = elim (acquire leases now key holder ttl) [
  | err raised ↦ leases
  | ok (next, lease) ↦ next
]
after_call leases (beating now key holder epoch ttl) =
    elim (heartbeat leases now key holder epoch ttl) [
      | err raised ↦ leases
      | ok (next, lease) ↦ next
    ]

-- The epoch of a key's lease, 0 before the first.
unfoldable pub epoch_of : Leases → String → ℕ
epoch_of leases key = elim (lookup key leases) [ none ↦ 0 | some row ↦ row.lease_epoch ]

-- A holder that is not the caller, before its lease expires.
pub record HeldByAnother (leases : Leases) (now : ℕ) (key holder : String) : Type 0 where
  pub row : LeaseRow
  pub found : lookup key leases ≡ some row
  pub other : row.holder_execution ≢ holder
  pub running : now < row.expires_at

-- A lease that another holds and that has not expired is not given.
acquire-HeldByAnother :
    (leases : Leases) (now : ℕ) (key holder : String) (ttl : ℕ)
    → 0 < ttl
    → HeldByAnother leases now key holder
    → acquire leases now key holder (pos ttl) ≡ ok (leases, none)
unfolding acquire
acquire-HeldByAnother leases now key holder ttl positive held =
    ground (arith, held.found, eq_iff held.row.holder_execution holder)

-- Every lease that is given has the next epoch of its key, and is live until it expires.
acquire-some :
    (leases : Leases) (now : ℕ) (key holder : String) (ttl : ℕ) {next : Leases} {lease : Lease}
    → acquire leases now key holder (pos ttl) ≡ ok (next, some lease)
    → (lease.lease_key ≡ key)
      × (lease.holder_execution ≡ holder)
      × (lease.lease_epoch ≡ epoch_of leases key + 1)
      × (lease.expires_at ≡ now + ttl)
      × (token_is_live next now key lease.lease_epoch ≡ true)
unfolding acquire epoch_of token_is_live
acquire-some leases now key holder ttl {next} {lease} h = elim (Option-cases (lookup key leases)) [
  | inl absent ↦
      ground
        (arith, absent, lookup-insert key key (held_row 1 holder now ttl) leases, eq_iff key key)
  | inr (row, found) ↦ ground (
    arith,
    found,
    lookup-insert key key (held_row (row.lease_epoch + 1) holder now ttl) leases,
    eq_iff key key,
  )
]

-- A call can only raise the epoch of a key.
after_call-epoch :
    (leases : Leases) (call : Call) (j : String)
    → epoch_of leases j ≤ epoch_of (after_call leases call) j
unfolding after_call acquire heartbeat epoch_of
after_call-epoch leases (acquiring now key holder (negsuc n)) j = ground arith
after_call-epoch leases (acquiring now key holder (pos ttl)) j =
    elim (Option-cases (lookup key leases)) [
      | inl absent ↦
          ground
            (arith, absent, eq_iff key j, lookup-insert key j (held_row 1 holder now ttl) leases)
      | inr (row, found) ↦ ground (
        arith,
        found,
        eq_iff key j,
        lookup-insert key j (held_row (row.lease_epoch + 1) holder now ttl) leases,
      )
    ]
after_call-epoch leases (beating now key holder epoch ttl) j =
    elim (Option-cases (lookup key leases)) [
      | inl absent ↦ ground (arith, absent)
      | inr (row, found) ↦
          let row' : LeaseRow = record row { last_heartbeat_at = now; expires_at = now + ttl } in
          ground (arith, found, eq_iff key j, lookup-insert key j row' leases)
    ]

unfoldable pub after_calls : Leases → List Call → Leases
unfolding after_call
after_calls leases [] = leases
after_calls leases (call ∷ calls) = after_calls (after_call leases call) calls

after_calls-epoch :
    (leases : Leases) (calls : List Call) (j : String)
    → epoch_of leases j ≤ epoch_of (after_calls leases calls) j
unfolding after_calls
after_calls-epoch leases [] j = omega arith
after_calls-epoch leases (call ∷ calls) j =
    omega
      (arith, after_call-epoch leases call j, after_calls-epoch (after_call leases call) calls j)

token_is_live-epoch :
    (leases : Leases) (now : ℕ) (key : String) (epoch : ℕ)
    → token_is_live leases now key epoch ≡ true
    → epoch_of leases key ≡ epoch
unfolding token_is_live epoch_of
token_is_live-epoch leases now key epoch h = elim (Option-cases (lookup key leases)) [
  | inl absent ↦ ground (arith, absent)
  | inr (row, found) ↦ ground (arith, found)
]

-- Once a lease is given again, no token of an earlier epoch is ever live, whatever calls follow and
-- at whatever time.
pub acquire-fences :
    (leases : Leases) (now : ℕ) (key holder : String) (ttl : ℕ) {next : Leases} {lease : Lease}
    → acquire leases now key holder (pos ttl) ≡ ok (next, some lease)
    → (calls : List Call) (later epoch : ℕ) → epoch < lease.lease_epoch
    → token_is_live (after_calls next calls) later key epoch ≡ false
acquire-fences leases now key holder ttl {next} {lease} h calls later epoch old =
    elim (Bool-cases (token_is_live (after_calls next calls) later key epoch)) [
      | inr stale ↦ stale
      | inl live ↦
          let (named, mine, e, until, now_live) = acquire-some leases now key holder ttl h in
          absurd (
            omega (
              arith,
              after_calls-epoch next calls key,
              token_is_live-epoch (after_calls next calls) later key epoch live,
              token_is_live-epoch next now key lease.lease_epoch now_live,
            ))
    ]

-- A heartbeat of an epoch that is not live is refused.
heartbeat-stale :
    (leases : Leases) (now : ℕ) (key holder : String) (epoch ttl : ℕ)
    → token_is_live leases now key epoch ≡ false
    → heartbeat leases now key holder epoch ttl
      ≡ err (stale_lease "lease heartbeat rejected for stale holder or epoch")
unfolding heartbeat token_is_live
heartbeat-stale leases now key holder epoch ttl stale = elim (Option-cases (lookup key leases)) [
  | inl absent ↦ ground (arith, absent)
  | inr (row, found) ↦ ground (arith, found, eq_iff row.holder_execution holder)
]
