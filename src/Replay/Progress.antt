-- ===== src/Replay/Progress.antt =====
-- domain/replay.py: a replay of checked input never stops before its end.
use mathlib.Core.Path.{subst}
use sopara.Prelude.{String, ◌≡◌, true, Option, none, some, List, [], ◌∷◌, arith}
use sopara.Prelude.Int.{ℤ, pos}
use sopara.Errors.{ok}
use sopara.Evidence.{EvidenceClass, EvidenceSelection}
use sopara.Instruments.{Direction}
use sopara.Decisions.Eligibility.{evaluate-accepted_iff}
use sopara.Decisions.Totality.{evaluate_total, IsReadable}
use sopara.Market.{BookState}
use sopara.Canonical.Support.{Succeeds, IsSupported, AreSupported, canonical_sha256-ok}
use sopara.Replay.Event.{ReplayEvent, BookTuple}
use sopara.Replay.Dataset.{ReplayDataset, ReplayConfiguration}
use sopara.Replay.Encoding.{
  optional_integer, objects, event_object, dataset_object, input_hash, contract_object,
}
use sopara.Replay.Entry.{
  mark_of, proposal_of, book_of, fill_of, entry_of, direction_of, reference_ticks, replay_evidence,
  replay_context, fill_assumptions, feature_digest, proposal_digest, kind_digest, simulate_fill,
  open_entry, feature_object, proposal_object, kind_object,
}
use sopara.Replay.Inputs.{IsDigest, digest_not_empty}
use sopara.Replay.Advance.{decision_digest, decision_key}
use sopara.Replay.Opening.{
  CanOpen, nes_price, booked, proposed, eligible, order_of, ordered, filled, assumed, readable,
  reference-IsMeasured,
}

optional_integer-IsSupported : (o : Option ℤ) → IsSupported (optional_integer o)
unfolding IsSupported
optional_integer-IsSupported none = tt
optional_integer-IsSupported (some n) = tt

events-AreSupported : (es : List ReplayEvent) → AreSupported (objects event_object es)
unfolding IsSupported event_object
events-AreSupported [] = tt
events-AreSupported (e ∷ es) = (
  (
    tt,
    (
      tt,
      (
        tt,
        (
          tt,
          (
            tt,
            (
              tt,
              (
                tt,
                (
                  tt,
                  (
                    tt,
                    (
                      tt,
                      (
                        optional_integer-IsSupported e.price_ticks,
                        (
                          optional_integer-IsSupported e.quantity,
                          (
                            optional_integer-IsSupported e.bid_ticks,
                            (
                              optional_integer-IsSupported e.ask_ticks,
                              (
                                optional_integer-IsSupported e.bid_size,
                                (
                                  optional_integer-IsSupported e.ask_size,
                                  (optional_integer-IsSupported e.last_trade_size, tt),
                                ),
                              ),
                            ),
                          ),
                        ),
                      ),
                    ),
                  ),
                ),
              ),
            ),
          ),
        ),
      ),
    ),
  ),
  events-AreSupported es,
)

dataset-IsSupported : (d : ReplayDataset) → IsSupported (dataset_object d)
unfolding IsSupported dataset_object contract_object
dataset-IsSupported d =
    (tt, (tt, (tt, ((tt, (tt, tt)), ((tt, (tt, tt)), (events-AreSupported d.events, tt))))))

abbrev Readable : Option BookState → Type 0
Readable none = Unit
Readable (some k) = IsReadable k

module _ (sha256 : String → String) where
  pub input_hash-Succeeds : (d : ReplayDataset) → Succeeds (input_hash sha256 d)
  unfolding input_hash
  input_hash-Succeeds d =
      let (json, h) = canonical_sha256-ok sha256 (dataset_object d) (dataset-IsSupported d) in
      (sha256 json, h)

  pub decision_digest-Succeeds :
      (d : ReplayDataset) (e : ReplayEvent) → Succeeds (decision_digest sha256 d e)
  unfolding decision_digest IsSupported
  decision_digest-Succeeds d e =
      let (hash, h) = input_hash-Succeeds d in
      let (json, g) = canonical_sha256-ok sha256 (decision_key hash e) (tt, (tt, (tt, tt))) in
      (sha256 json, ground (arith, h, g))

  feature_made :
      (e : ReplayEvent) (delta : ℤ)
      → (json : String) × (feature_digest sha256 e delta ≡ ok (sha256 json))
  unfolding feature_digest IsSupported
  feature_made e delta = canonical_sha256-ok sha256 (feature_object e delta) (tt, (tt, (tt, tt)))

  proposal_made :
      (f : String) (d : Direction)
      → (json : String) × (proposal_digest sha256 f d ≡ ok (sha256 json))
  unfolding proposal_digest IsSupported
  proposal_made f d = canonical_sha256-ok sha256 (proposal_object f d) (tt, (tt, (tt, tt)))

  pub kind_made :
      (name identity kind : String)
      → (json : String) × (kind_digest sha256 name identity kind ≡ ok (sha256 json))
  unfolding kind_digest IsSupported
  kind_made name identity kind =
      canonical_sha256-ok sha256 (kind_object name identity kind) (tt, (tt, tt))

  -- The position opens, whatever the change that triggers it.
  pub open_entry-Succeeds :
      (d : ReplayDataset) (c : ReplayConfiguration) (e : ReplayEvent) (delta : ℤ) (b : BookTuple)
      → IsDigest sha256
      → CanOpen d c e b
      → Succeeds (open_entry sha256 d c e (pos 0) delta b)
  unfolding open_entry simulate_fill replay_evidence
  open_entry-Succeeds d c e delta b digest can =
      let direction = direction_of delta in
      let (fj, fh) = feature_made e delta in
      let (pj, ph) = proposal_made (sha256 fj) direction in
      let evidence : EvidenceSelection = record {
        evidence_class = EvidenceClass.synthetic_nes_proxy;
        first_trade_date = d.trade_date;
        proxy_opt_in = true;
      } in
      let proposal =
        proposal_of c e direction (sha256 fj) (sha256 pj) evidence (mark_of e) (mark_of can.earlier)
          (nes_price (reference_ticks direction b)) in
      let hp =
        proposed d c e b can direction (sha256 fj) (sha256 pj) evidence
          (digest_not_empty sha256 digest fj) (digest_not_empty sha256 digest pj) in
      let book = book_of d b (nes_price b.bid_ticks) (nes_price b.ask_ticks) in
      let (decision, hd) =
        evaluate_total proposal (replay_context d c e (pos 0) book)
          (λ k h. subst (λ (o : Option BookState). Readable o) h (readable d c e b can))
          (λ k h. reference-IsMeasured d c e b can direction k h) in
      let accepted =
        (evaluate-accepted_iff proposal (replay_context d c e (pos 0) book) decision hd).1
          (eligible d c e b can direction (sha256 fj) (sha256 pj) evidence) in
      let (oj, oh) = kind_made "proposal_id" (sha256 pj) "ENTRY" in
      let order = order_of d c e b can (sha256 oj) direction (sha256 pj) in
      let ho =
        ordered d c e b can (sha256 oj) direction (sha256 fj) (sha256 pj) evidence decision
          accepted in
      let (lj, lh) = kind_made "order_id" (sha256 oj) "ENTRY" in
      let fill = fill_of d c e evidence order (sha256 lj) (fill_assumptions c) in
      (
        entry_of c e direction b (sha256 pj) evidence decision order fill,
        ground (
          arith,
          fh,
          ph,
          hp,
          booked d c e b can,
          hd,
          oh,
          ho,
          lh,
          assumed d c e b can,
          filled d c e b can direction (sha256 oj) (sha256 pj) (sha256 lj) evidence,
        ),
      )
