-- ===== src/Repositories/Log/Conflicts.antt =====
-- adapters/database/repositories.py: appends that are refused, by their expected version or their token.
use sopara.Prelude.{ℕ, ◌<◌, String, ◌≡◌, some, List, arith, eq_iff}
use sopara.Prelude.Int.{pos}
use sopara.Errors.{ok}
use sopara.Events.{DomainEvent}
use sopara.Repositories.Leases.{Leases, Lease, acquire}
use sopara.Repositories.Fencing.{Call, after_calls, acquire-fences}
use sopara.Repositories.Log.{Projection, Tables, Appending, version, append, check_token}
use sopara.Repositories.Log.Sequences.{append-Appended, append-find}

module _ (sha256 : String → String) where
  -- Of two appends to one aggregate at the same expected version, the second does not return once
  -- the first has.
  pub append-conflict :
      (leases leases' : Leases) (now later : ℕ) (tables : Tables) (event other : DomainEvent)
      (a b : Appending) {next after : Tables} {p q : Projection}
      → append sha256 leases now tables event a ≡ ok (next, p)
      → other.aggregate_type ≡ event.aggregate_type
      → b.aggregate_id ≡ a.aggregate_id
      → b.expected_version ≡ a.expected_version
      → ¬ (append sha256 leases' later next other b ≡ ok (after, q))
  unfolding version
  append-conflict leases leases' now later tables event other a b {next} {after} {p} {q} h typed
        keyed same again =
      let first = append-Appended sha256 leases now tables event a h in
      let second = append-Appended sha256 leases' later next other b again in
      let found =
        append-find sha256 leases now tables event a first other.aggregate_type b.aggregate_id in
      ground (
        arith,
        second.current,
        found,
        first.given,
        first.follows,
        eq_iff event.aggregate_type other.aggregate_type,
        eq_iff a.aggregate_id b.aggregate_id,
      )

  -- Once a lease has been given, no event with a token of an earlier epoch of its key is appended,
  -- whatever lease calls follow, and at whatever time.
  pub append-fenced :
      (leases : Leases) (now : ℕ) (key holder : String) (ttl : ℕ) {given : Leases} {lease : Lease}
      → acquire leases now key holder (pos ttl) ≡ ok (given, some lease)
      → (calls : List Call) (later epoch : ℕ) (tables : Tables) (event : DomainEvent)
        (a : Appending) {next : Tables} {projection : Projection}
      → epoch < lease.lease_epoch
      → a.lease_key ≡ some key
      → a.lease_epoch ≡ some epoch
      → ¬ (append sha256 (after_calls given calls) later tables event a ≡ ok (next, projection))
  unfolding check_token
  append-fenced leases now key holder ttl {given} {lease} h calls later epoch tables event a {next}
        {projection} old keyed numbered done =
      let stale = acquire-fences leases now key holder ttl h calls later epoch old in
      let passed = append-Appended sha256 (after_calls given calls) later tables event a done in
      ground (arith, passed.token, stale, keyed, numbered)
