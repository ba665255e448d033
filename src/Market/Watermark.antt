-- ===== src/Market/Watermark.antt =====
-- domain/market.py: what `SourceWatermark.advance` guarantees over any sequence of deliveries.
use sopara.Prelude.{◌≡◌, sym, ◌∙◌, ◌⊎◌, inl, inr, List, [], ◌∷◌, arith}
use sopara.Prelude.Int.{ℤ, pos, ◌+ℤ◌, ◌≤ℤ◌, ◌<ℤ◌, +ℤ_parts, eq_of_parts}
use sopara.Errors.{Result, ok, ◌>>=◌, >>=-returned}
use sopara.Market.{SourceWatermark, SourceEvent, Completeness, advance}

-- What one delivery changes: the sequence stays or moves to the next number, which the event has;
-- the times never fall; the stream stays the same; and the completeness says which of the two it was.
pub record Advanced (w : SourceWatermark) (e : SourceEvent) (w' : SourceWatermark) : Type 0 where
  pub sequence :
      (w'.last_contiguous_sequence ≡ w.last_contiguous_sequence)
      ⊎ ((w'.last_contiguous_sequence ≡ e.identity.source_sequence)
          × (e.identity.source_sequence ≡ w.last_contiguous_sequence +ℤ pos 1)
          × (w'.completeness ≡ Completeness.contiguous))
  pub exchange : w.max_exchange_time_ns ≤ℤ w'.max_exchange_time_ns
  pub source : w'.source_id ≡ w.source_id
  pub channel : w'.channel_id ≡ w.channel_id
  pub session : w'.source_session_id ≡ w.source_session_id

-- A delivery that does not raise changes the watermark as `Advanced` says.
pub advance-Advanced :
    (w w' : SourceWatermark) (e : SourceEvent) → advance w e ≡ ok w' → Advanced w e w'
unfolding advance
advance-Advanced w w' e h = record {
  sequence =
      ground (arith, eq_of_parts e.identity.source_sequence (w.last_contiguous_sequence +ℤ pos 1));
  exchange = ground arith;
  source = ground arith;
  channel = ground arith;
  session = ground arith;
}

-- An event that is not newer than the watermark changes nothing.
pub advance_old :
    (w : SourceWatermark) (e : SourceEvent) {w' : SourceWatermark}
    → e.identity.source_sequence ≤ℤ w.last_contiguous_sequence
    → advance w e ≡ ok w'
    → w' ≡ w
unfolding advance
advance_old w e h p = ground arith

-- A gap is flagged and does not move the sequence.
pub advance_gap :
    (w : SourceWatermark) (e : SourceEvent) {w' : SourceWatermark}
    → w.last_contiguous_sequence +ℤ pos 1 <ℤ e.identity.source_sequence
    → advance w e ≡ ok w'
    → (w'.last_contiguous_sequence ≡ w.last_contiguous_sequence)
      × (w'.completeness ≡ Completeness.gapped)
unfolding advance
advance_gap w e h p = ground (arith, +ℤ_parts w.last_contiguous_sequence (pos 1))

-- A batch of deliveries, stopped by the first error.
unfoldable pub advance_all : SourceWatermark → List SourceEvent → Result SourceWatermark
advance_all w [] = ok w
advance_all w (e ∷ es) = do w' ← advance w e; advance_all w' es

abbrev pub Seen : ℤ → List SourceEvent → Type 0
Seen k [] = ⊥
Seen k (e ∷ es) = (e.identity.source_sequence ≡ k) ⊎ Seen k es

advance_all-step :
    (w w' : SourceWatermark) (e : SourceEvent) (es : List SourceEvent)
    → advance_all w (e ∷ es) ≡ ok w'
    → (v : SourceWatermark) × (advance w e ≡ ok v) × (advance_all v es ≡ ok w')
unfolding advance_all
advance_all-step w w' e es h = >>=-returned (advance w e) (λ v. advance_all v es) h

step_or_seen : (a b k : ℤ) → (b ≡ a) ⊎ (b ≡ a +ℤ pos 1) → a <ℤ k → (b <ℤ k) ⊎ (b ≡ k)
step_or_seen a b k h below = ground (arith, +ℤ_parts a (pos 1), eq_of_parts b k)

-- A batch never lowers the watermark, and whatever it passes was delivered.
advance_all_sound :
    (w w' : SourceWatermark) (es : List SourceEvent)
    → advance_all w es ≡ ok w'
    → (w.last_contiguous_sequence ≤ℤ w'.last_contiguous_sequence)
      × ((k : ℤ) → w.last_contiguous_sequence <ℤ k → k ≤ℤ w'.last_contiguous_sequence → Seen k es)
unfolding advance_all
advance_all_sound w w' [] h = (ground arith, λ k lo hi. absurd (ground arith))
advance_all_sound w w' (e ∷ es) h =
    let (v, one, rest) = advance_all-step w w' e es h in
    let a = advance-Advanced w v e one in
    let (grows, seen) = advance_all_sound v w' es rest in
    (
      elim a.sequence [
        | inl same ↦ ground arith
        | inr p ↦ ground (arith, p.0, p.1, +ℤ_parts w.last_contiguous_sequence (pos 1))
      ],
      λ k lo hi. elim a.sequence [
        | inl same ↦ inr (seen k (ground arith) hi)
        | inr p ↦
            elim (step_or_seen w.last_contiguous_sequence v.last_contiguous_sequence k
              (inr (p.0 ∙ p.1)) lo) [
                | inl below ↦ inr (seen k below hi)
                | inr here ↦ inl (sym p.0 ∙ here)
              ]
      ],
    )

-- Every number above the watermark before a batch of deliveries, up to the one after it, was delivered
-- in the batch: nothing is skipped.
pub advance_all-Seen :
    (w w' : SourceWatermark) (es : List SourceEvent) (k : ℤ)
    → advance_all w es ≡ ok w'
    → w.last_contiguous_sequence <ℤ k
    → k ≤ℤ w'.last_contiguous_sequence
    → Seen k es
advance_all-Seen w w' es k h lo hi = (advance_all_sound w w' es h).1 k lo hi
