-- ===== src/Repositories/Leases.antt =====
-- adapters/database/repositories.py: `LeaseRepository`. The database's clock is an argument, in seconds.
use sopara.Prelude.{
  ℕ, ◌+◌, String, Bool, false, ◌&&◌, ◌||◌, Option, none, some, Dict, lookup, insert, str_eq, leb,
  ltb, ◌==◌, if◌then◌else◌,
}
use sopara.Prelude.Int.{ℤ, pos, negsuc}
use sopara.Errors.{Result, ok, err, value_error, stale_lease, integrity_error}

-- A row of `window_lease` under its key.
pub record LeaseRow : Type 0 where
  pub lease_epoch : ℕ
  pub holder_execution : String
  pub acquired_at : ℕ
  pub expires_at : ℕ
  pub last_heartbeat_at : ℕ

pub record Lease : Type 0 where
  pub lease_key : String
  pub lease_epoch : ℕ
  pub holder_execution : String
  pub expires_at : ℕ

abbrev pub Leases : Type 0
Leases = Dict LeaseRow

abbrev pub held_row : ℕ → String → ℕ → ℕ → LeaseRow
held_row epoch holder now ttl = record {
  lease_epoch = epoch;
  holder_execution = holder;
  acquired_at = now;
  expires_at = now + ttl;
  last_heartbeat_at = now;
}

abbrev pub lease_of : String → LeaseRow → Lease
lease_of key row = record {
  lease_key = key;
  lease_epoch = row.lease_epoch;
  holder_execution = row.holder_execution;
  expires_at = row.expires_at;
}

-- The row that `INSERT … ON CONFLICT DO UPDATE … WHERE` leaves, if it leaves one.
unfoldable pub acquired_row : Option LeaseRow → String → ℕ → ℕ → Option LeaseRow
acquired_row none holder now ttl = some (held_row 1 holder now ttl)
acquired_row (some row) holder now ttl =
    if leb row.expires_at now || str_eq row.holder_execution holder
    then some (held_row (row.lease_epoch + 1) holder now ttl)
    else none

abbrev pub acquire_positive : Leases → ℕ → String → String → ℕ → Leases × Option Lease
acquire_positive leases now key holder ttl =
    elim (acquired_row (lookup key leases) holder now ttl) [
      | none ↦ (leases, none)
      | some row ↦ (insert key row leases, some (lease_of key row))
    ]

unfoldable pub acquire : Leases → ℕ → String → String → ℤ → Result (Leases × Option Lease)
unfolding acquired_row
acquire leases now key holder (negsuc n) = err (value_error "lease TTL must be positive")
acquire leases now key holder (pos ttl) =
    if ttl == 0
    then err (value_error "lease TTL must be positive")
    else ok (acquire_positive leases now key holder ttl)

-- The row that the heartbeat's `UPDATE … WHERE` leaves.
unfoldable pub renewed_row : Option LeaseRow → String → ℕ → ℕ → ℕ → Option LeaseRow
renewed_row none holder epoch now ttl = none
renewed_row (some row) holder epoch now ttl =
    if str_eq row.holder_execution holder && (row.lease_epoch == epoch && ltb now row.expires_at)
    then some (record row { last_heartbeat_at = now; expires_at = now + ttl })
    else none

-- The table's check `expires_at > acquired_at` stands. The times and the TTL are not negative.
unfoldable pub heartbeat : Leases → ℕ → String → String → ℕ → ℕ → Result (Leases × Lease)
unfolding renewed_row
heartbeat leases now key holder epoch ttl =
    elim (renewed_row (lookup key leases) holder epoch now ttl) [
      | none ↦ err (stale_lease "lease heartbeat rejected for stale holder or epoch")
      | some row ↦
          if ltb row.acquired_at row.expires_at
          then ok (insert key row leases, lease_of key row)
          else err integrity_error
    ]

-- The fencing token's row: this epoch of the lease, and not yet expired.
unfoldable pub token_is_live : Leases → ℕ → String → ℕ → Bool
token_is_live leases now key epoch = elim (lookup key leases) [
  | none ↦ false
  | some row ↦ row.lease_epoch == epoch && ltb now row.expires_at
]
