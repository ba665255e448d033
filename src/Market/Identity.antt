-- ===== src/Market/Identity.antt =====
-- domain/market.py: the order of events within a stream, and the classes of duplicates.
use sopara.Prelude.{◌≡◌, ◌≢◌, ◌↔◌, true, false, some, arith, eq_iff}
use sopara.Prelude.Int.{ℤ, pos, negsuc, ◌-ℤ◌, ==ℤ_iff}
use sopara.Errors.{ok}
use sopara.Market.{
  MarketEventIdentity, SourceEvent, new, identical, conflict, same_stream, before, same_identity,
  compare_within_stream, classify_duplicate,
}

module _ (a b : MarketEventIdentity) where
  same_stream_sym : same_stream a b ≡ true → same_stream b a ≡ true
  same_stream_sym h = ground (
    arith,
    eq_iff a.source_id b.source_id,
    eq_iff a.channel_id b.channel_id,
    eq_iff a.source_session_id b.source_session_id,
    eq_iff a.contract_id b.contract_id,
    eq_iff b.source_id a.source_id,
    eq_iff b.channel_id a.channel_id,
    eq_iff b.source_session_id a.source_session_id,
    eq_iff b.contract_id a.contract_id,
  )

  -- Two identities compare equal exactly if they are one identity.
  pub compare-zero_iff : (compare_within_stream a b ≡ ok (pos 0)) ↔ (same_identity a b ≡ true)
  unfolding compare_within_stream
  compare-zero_iff = (λ h. ground arith, λ h. ground arith)

  -- Swapping the arguments of a comparison that succeeds swaps its sign.
  pub compare_antisym :
      {z : ℤ} → compare_within_stream a b ≡ ok z → compare_within_stream b a ≡ ok (pos 0 -ℤ z)
  unfolding compare_within_stream ◌-ℤ◌
  compare_antisym h = ground (arith, same_stream_sym)

before_trans :
    (a b c : MarketEventIdentity) → before a b ≡ true → before b c ≡ true → before a c ≡ true
before_trans a b c h k = ground arith

before_asym : (a b : MarketEventIdentity) → before a b ≡ true → before b a ≡ false
before_asym a b h = ground arith

same_stream_trans :
    (a b c : MarketEventIdentity)
    → same_stream a b ≡ true
    → same_stream b c ≡ true
    → same_stream a c ≡ true
same_stream_trans a b c h k = ground (
  arith,
  eq_iff a.source_id b.source_id,
  eq_iff a.channel_id b.channel_id,
  eq_iff a.source_session_id b.source_session_id,
  eq_iff a.contract_id b.contract_id,
  eq_iff b.source_id c.source_id,
  eq_iff b.channel_id c.channel_id,
  eq_iff b.source_session_id c.source_session_id,
  eq_iff b.contract_id c.contract_id,
  eq_iff a.source_id c.source_id,
  eq_iff a.channel_id c.channel_id,
  eq_iff a.source_session_id c.source_session_id,
  eq_iff a.contract_id c.contract_id,
)

compare-before :
    (a b : MarketEventIdentity)
    → (compare_within_stream a b ≡ ok (negsuc 0)) ↔ ((same_stream a b ≡ true) × (before a b ≡ true))
unfolding compare_within_stream
compare-before a b =
    (λ h. (ground arith, ground (arith, before_asym b a)), λ h. ground (arith, before_asym a b))

-- "Earlier in the stream" is transitive, and defined only within one stream.
pub compare_trans :
    (a b c : MarketEventIdentity)
    → compare_within_stream a b ≡ ok (negsuc 0)
    → compare_within_stream b c ≡ ok (negsuc 0)
    → compare_within_stream a c ≡ ok (negsuc 0)
compare_trans a b c h k =
    let p = (compare-before a b).0 h in
    let q = (compare-before b c).0 k in
    (compare-before a c).1 (same_stream_trans a b c p.0 q.0, before_trans a b c p.1 q.1)

same_identity_iff : (a b : MarketEventIdentity) → (same_identity a b ≡ true) ↔ (a ≡ b)
same_identity_iff a b = (
  λ h. ground (
    arith,
    eq_iff a.source_id b.source_id,
    eq_iff a.channel_id b.channel_id,
    eq_iff a.source_session_id b.source_session_id,
    eq_iff a.contract_id b.contract_id,
    ==ℤ_iff a.source_sequence b.source_sequence,
    ==ℤ_iff a.message_index b.message_index,
  ),
  λ h. ground (
    arith,
    eq_iff a.source_id b.source_id,
    eq_iff a.channel_id b.channel_id,
    eq_iff a.source_session_id b.source_session_id,
    eq_iff a.contract_id b.contract_id,
  ),
)

-- Against an event that is already there, an incoming one is identical exactly if identity and
-- payload digest agree, a conflict exactly if the identity agrees and the digest does not, and new
-- exactly if the identity differs.
pub classify_duplicate_iff :
    (existing incoming : SourceEvent)
    → ((classify_duplicate (some existing) incoming ≡ identical) ↔ (
        (existing.identity ≡ incoming.identity)
        × (existing.payload_sha256 ≡ incoming.payload_sha256)))
      × ((classify_duplicate (some existing) incoming ≡ conflict) ↔ (
          (existing.identity ≡ incoming.identity)
          × (existing.payload_sha256 ≢ incoming.payload_sha256)))
      × ((classify_duplicate (some existing) incoming ≡ new)
          ↔ (existing.identity ≢ incoming.identity))
unfolding classify_duplicate
classify_duplicate_iff existing incoming =
    let same = same_identity_iff existing.identity incoming.identity in
    let digest = eq_iff existing.payload_sha256 incoming.payload_sha256 in
    (
      (λ h. (ground (arith, same), ground (arith, digest)), λ h. ground (arith, same, digest)),
      (
        λ h. (ground (arith, same), λ e. ground (arith, same, digest)),
        λ h. ground (arith, same, digest),
      ),
      (λ h e. ground (arith, same, digest), λ h. ground (arith, same, digest)),
    )
