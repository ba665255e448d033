-- ===== src/Replay/Settlement.antt =====
-- domain/replay.py: how a replay ends.
use sopara.Execution.Costs.{nonneg-mul}
use sopara.Execution.{check_pnl}
use sopara.Replay.Encoding.{configuration_fingerprint, configuration_object, version_object}
use sopara.Replay.Reach.{Reaches, Reaches-IsStaged}
use sopara.Replay.Total.{IsReplayable, Reaches-IsKnown, Reaches-entry, known_book}
use sopara.Replay.Entry.{fill_assumptions}
use sopara.Prelude.{
  ℕ, String, ◌≡◌, refl, sym, ap, ◌∙◌, ◌⊎◌, inl, inr, false, none, some, List, [], ◌∷◌, ◌++◌, length,
  arith, ◌/◌, ◌*◌, ◌<◌,
}
use sopara.Prelude.Int.{ℤ, pos, ◌≤ℤ◌, ltb_ℤ, ◌-ℤ◌, ◌*ℤ◌, magnitude, ◌==ℤ◌, ◌+ℤ◌}
use sopara.Errors.{ok}
use sopara.Instruments.Arithmetic.{Exact, mul, of_int, exact_product, rounded, round_digits}
use sopara.Instruments.Precision.{Fits, mul-Fits, rounded-nonneg}
use sopara.Instruments.{
  Direction, long, short, Money, nes, nes_spec, sign, spec, price_from_ticks, gross_pnl, tick_value,
  check_spec,
}
use sopara.Instruments.Gross.{gross_pnl-ticks, magnitude-mul, magnitude-sign}
use mathlib.Core.Path.{subst}
use sopara.Canonical.Support.{Succeeds, canonical_sha256-ok, IsSupported}
use sopara.Replay.Event.{BookTuple}
use sopara.Replay.Dataset.{ReplayDataset, ReplayConfiguration}
use sopara.Replay.State.{ReplayState, OrderEntry, FillEntry, PositionEntry, FillKind}
use sopara.Replay.Stages.{IsStaged, IsFlat, IsOpened}
use sopara.Replay.Inputs.{IsTwoSided, tick_limit, dataset_contracts, configuration_costs}
use sopara.Replay.Opening.{IsPrice, nes-Fits, nes_price, made_price, bid_price, ask_price}
use sopara.Replay.Progress.{input_hash-Succeeds, kind_made}
use sopara.Replay.Finish.{
  Exit, no_exit, held_direction, opposite, exit_ticks, close_position, settle, closed, breakdown,
  money_of, finish_replay, ReplayResult, pnl_of, result_of,
}

-- One entry and one exit: the second order is in the other direction, for the same proposal, each fill
-- is for one contract, and the gross result is exactly that of the ticks between the two prices.
pub record IsRoundTrip (d : ReplayDataset) (s : ReplayState) (x : Exit) : Type 0 where
  pub direction : Direction
  pub entry_order : OrderEntry
  pub exit_order : OrderEntry
  pub entry_fill : FillEntry
  pub exit_fill : FillEntry
  pub entry_position : PositionEntry
  pub exit_position : PositionEntry
  pub orders : x.orders ≡ entry_order ∷ exit_order ∷ []
  pub fills : x.fills ≡ entry_fill ∷ exit_fill ∷ []
  pub positions : x.positions ≡ entry_position ∷ exit_position ∷ []
  pub entry_direction : entry_order.direction ≡ direction
  pub exit_direction : exit_order.direction ≡ opposite direction
  pub same_proposal : exit_order.proposal_id ≡ entry_order.proposal_id
  pub entry_quantity : entry_fill.quantity ≡ pos 1
  pub exit_quantity : exit_fill.quantity ≡ pos 1
  pub flat : exit_position.quantity ≡ pos 0
  pub gross :
      x.gross.value
      ≡ exact_product
          (tick_value nes_spec).value
          (of_int ((exit_fill.price_ticks -ℤ entry_fill.price_ticks) *ℤ sign direction *ℤ pos 1))

held :
    (d : Direction)
    → (held_direction (sign d) ≡ d) × (magnitude (sign d) ≡ 1) × ((sign d ==ℤ pos 0) ≡ false)
unfolding sign
held long = (refl, refl, refl)
held short = (refl, refl, refl)

exit_price : (d : Direction) (b : BookTuple) → IsTwoSided b → IsPrice (exit_ticks d b)
exit_price long b t = bid_price b t
exit_price short b t = ask_price b t

nes_tick_value : (tick_value nes_spec).value ≡ record { coefficient = pos 250; scale = 3 }
unfolding tick_value mul rounded round_digits ◌*ℤ◌
nes_tick_value = refl

value-Fits : Fits (pos 5 *ℤ pos 50)
unfolding ◌*ℤ◌
value-Fits = omega arith

tick_product : pos 5 *ℤ pos 50 ≡ pos 250
unfolding ◌*ℤ◌
tick_product = refl

scaled-Fits : (z : ℤ) → magnitude z < tick_limit → Fits (pos 250 *ℤ z)
scaled-Fits z h = let m = magnitude-mul (pos 250) z in omega (arith, m, h)

gap_below : (e x : ℤ) → IsPrice e → IsPrice x → magnitude (x -ℤ e) < tick_limit
unfolding ◌-ℤ◌
gap_below e x he hx = ground (arith, he, hx)

-- Two prices are fewer ticks apart than the limit.
apart :
    (e x : ℤ) (dir : Direction)
    → IsPrice e
    → IsPrice x
    → magnitude ((x -ℤ e) *ℤ sign dir *ℤ pos 1) < tick_limit
apart e x dir he hx =
    let gap : magnitude (x -ℤ e) < tick_limit = gap_below e x he hx in
    let m = magnitude-mul ((x -ℤ e) *ℤ sign dir) (pos 1) in
    let n = magnitude-mul (x -ℤ e) (sign dir) in
    let one = magnitude-sign dir in
    let k : magnitude ((x -ℤ e) *ℤ sign dir) ≡ magnitude (x -ℤ e) =
      n ∙ ap (λ (t : ℕ). magnitude (x -ℤ e) * t) one ∙ (omega arith) in
    omega (arith, m, k, gap)

module _ (sha256 : String → String) (d : ReplayDataset) (c : ReplayConfiguration)
    (nes_product : d.nes_contract.product ≡ nes) where
  gross_made :
      (e x : ℤ) (dir : Direction)
      → IsPrice e
      → IsPrice x
      → gross_pnl (spec d.nes_contract) (nes_price e) (nes_price x) dir (pos 1)
        ≡ ok (record {
          value =
              exact_product (tick_value nes_spec).value (of_int ((x -ℤ e) *ℤ sign dir *ℤ pos 1));
        })
  unfolding check_spec
  gross_made e x dir he hx =
      let whole = (x -ℤ e) *ℤ sign dir *ℤ pos 1 in
      let fits = scaled-Fits whole (apart e x dir he hx) in
      let kept =
        mul-Fits (tick_value nes_spec).value (of_int whole)
          (subst (λ (v : Exact). Fits (v.coefficient *ℤ whole)) (sym nes_tick_value) fits) in
      rw nes_product (
        gross_pnl-ticks nes_spec e x (pos 1) dir refl (made_price e he) (made_price x hx)
          (omega arith) (nes-Fits e he) (nes-Fits x hx) value-Fits
          (subst (λ (v : ℤ). Fits (v *ℤ whole)) (sym tick_product) fits)
        ∙ ap (λ (y : Exact). ok (record { value = y })) kept)

  nes_made : (n : ℤ) → IsPrice n → price_from_ticks (spec d.nes_contract) n ≡ ok (nes_price n)
  nes_made n h = rw nes_product (made_price n h)

  round_trip :
      (s : ReplayState) (o : IsOpened s) (x : ℤ) (order_id fill_id : String) (gross : Money)
      → gross.value
        ≡ exact_product
            (tick_value nes_spec).value
            (of_int ((x -ℤ o.ticks) *ℤ sign o.direction *ℤ pos 1))
      → IsRoundTrip d s (closed d c s o.direction x order_id o.order fill_id gross)
  round_trip s o x order_id fill_id gross h =
      let exit_order : OrderEntry = record {
        order_id = order_id;
        proposal_id = o.order.proposal_id;
        direction = opposite o.direction;
        quantity = pos (magnitude s.position);
        limit_ticks = x;
        kind = some "TERMINAL_EXIT";
      } in
      let exit_fill : FillEntry = record {
        fill_id = fill_id;
        order_id = order_id;
        kind = FillKind.exit;
        price_ticks = x;
        quantity = pos (magnitude s.position);
        occurred_at_ns = s.logical_time_ns +ℤ c.latency_ns;
        evidence_class = d.evidence_class;
        assumptions = fill_assumptions c;
      } in
      let exit_position : PositionEntry = record {
        after_event = pos (length d.events);
        quantity = pos 0;
        price_ticks = none;
      } in
      record {
        direction = o.direction;
        entry_order = o.order;
        exit_order = exit_order;
        entry_fill = o.fill;
        exit_fill = exit_fill;
        entry_position = o.position_entry;
        exit_position = exit_position;
        orders = ap (λ xs. xs ++ exit_order ∷ []) o.orders;
        fills = ap (λ xs. xs ++ exit_fill ∷ []) o.fills;
        positions = ap (λ xs. xs ++ exit_position ∷ []) o.positions;
        entry_direction = o.recorded.order_direction;
        exit_direction = refl;
        same_proposal = refl;
        entry_quantity = o.recorded.fill_quantity;
        exit_quantity = ap (λ z. pos (magnitude z)) o.position ∙ ap pos (held o.direction).1;
        flat = refl;
        gross =
            h
            ∙ ap
                (λ e.
                  exact_product (tick_value nes_spec).value
                    (of_int ((x -ℤ e) *ℤ sign o.direction *ℤ pos 1)))
                (sym o.recorded.fill_ticks);
      }

  -- A flat state settles with nothing, and an open one with a two-sided book settles in a round trip.
  settle-IsRoundTrip :
      (s : ReplayState)
      → IsStaged s
      → ((b : BookTuple) → s.nes_book ≡ some b → IsTwoSided b)
      → ((n : ℤ) → s.entry_ticks ≡ some n → IsPrice n)
      → (x : Exit) × (settle sha256 d c s ≡ ok x)
        × ((IsFlat s × (x ≡ no_exit s)) ⊎ IsRoundTrip d s x)
  unfolding settle close_position IsStaged
  settle-IsRoundTrip s (inl f) two entered = (no_exit s, ground (arith, f.position), inl (f, refl))
  settle-IsRoundTrip s (inr o) two entered =
      let (hash, hh) = input_hash-Succeeds sha256 d in
      let (ej, eh) = kind_made sha256 "dataset" hash "TERMINAL_EXIT" in
      let (fj, fh) = kind_made sha256 "order_id" (sha256 ej) "EXIT" in
      let x = exit_ticks o.direction o.book in
      let hx = exit_price o.direction o.book (two o.book o.has_book) in
      let (dir, one, some_position) = held o.direction in
      let gross : Money = record {
        value =
            exact_product (tick_value nes_spec).value
              (of_int ((x -ℤ o.ticks) *ℤ sign o.direction *ℤ pos 1));
      } in
      let result = closed d c s o.direction x (sha256 ej) o.order (sha256 fj) gross in
      let hg = gross_made o.ticks x o.direction (entered o.ticks o.entry_ticks) hx in
      let he = nes_made o.ticks (entered o.ticks o.entry_ticks) in
      let hp = nes_made x hx in
      (
        result,
        ground (
          arith, o.position, dir, one, some_position, o.entry_ticks, o.has_book, o.orders, hh, eh,
          fh, he, hp, hg,
        ),
        inr (round_trip s o x (sha256 ej) (sha256 fj) gross refl),
      )

module _ (sha256 : String → String) (d : ReplayDataset) (c : ReplayConfiguration)
    (input : IsReplayable d c) where
  -- Each state of a replay of checked input, whose books have prices below 10 ^ 25 ticks, settles: a
  -- flat one with nothing, any other in one round trip of an entry and an exit.
  pub Reaches-settles :
      (s : ReplayState)
      → Reaches sha256 d c s
      → (x : Exit) × (settle sha256 d c s ≡ ok x)
        × ((IsFlat s × (x ≡ no_exit s)) ⊎ IsRoundTrip d s x)
  Reaches-settles s r =
      settle-IsRoundTrip sha256 d c (dataset_contracts d input.dataset).1 s
        (Reaches-IsStaged sha256 d c s r)
        (λ b has. (known_book sha256 d c input s b has (Reaches-IsKnown sha256 d c input s r)).0)
        (Reaches-entry sha256 d c input s r)

  made_nonneg : (n : ℤ) → pos 0 ≤ℤ n → ltb_ℤ (money_of n).value.coefficient (pos 0) ≡ false
  unfolding money_of
  made_nonneg n h =
      let kept = rounded-nonneg (record { coefficient = n; scale = 6 }) h in ground (arith, kept)

  breakdown-Succeeds : (gross : Money) (n : ℕ) → breakdown c gross n ≡ ok (pnl_of c gross n)
  unfolding breakdown check_pnl
  breakdown-Succeeds gross n =
      let (spread, latency, slippage, exchange, broker, data_, inference) =
        configuration_costs c input.configuration in
      ground (
        arith,
        made_nonneg _ (nonneg-mul c.spread_cost_microdollars (n / 2) spread),
        made_nonneg _ (nonneg-mul c.latency_cost_microdollars (n / 2) latency),
        made_nonneg _ (nonneg-mul c.slippage_cost_microdollars (n / 2) slippage),
        made_nonneg _ (nonneg-mul c.exchange_fee_microdollars n exchange),
        made_nonneg _ (nonneg-mul c.broker_fee_microdollars n broker),
        made_nonneg _ data_,
        made_nonneg _ inference,
      )

  configuration-IsSupported : IsSupported (configuration_object c)
  unfolding configuration_object version_object IsSupported
  configuration-IsSupported = (
    tt,
    (
      tt,
      (
        tt,
        (
          tt,
          (
            tt,
            (
              tt,
              (
                tt,
                (
                  tt,
                  (
                    tt,
                    (
                      tt,
                      (tt, (tt, (tt, (tt, ((tt, (tt, (tt, tt))), ((tt, (tt, (tt, tt))), tt)))))),
                    ),
                  ),
                ),
              ),
            ),
          ),
        ),
      ),
    ),
  )

  configuration-Succeeds : Succeeds (configuration_fingerprint sha256 c)
  unfolding configuration_fingerprint configuration_object version_object IsSupported
  configuration-Succeeds =
      let (json, h) =
        canonical_sha256-ok sha256 (configuration_object c) configuration-IsSupported in
      (sha256 json, h)

  -- A replay of checked input, whose books have prices below 10 ^ 25 ticks, finishes once it has
  -- consumed all of it, with the decisions of its state.
  pub finish_replay-Succeeds :
      (runtime_manifest_hash : String) (s : ReplayState) (hashes : List String)
      → Reaches sha256 d c s
      → s.next_input_index ≡ length d.events
      → (r : ReplayResult) × (finish_replay sha256 d c runtime_manifest_hash s hashes ≡ ok r)
        × (r.decisions ≡ s.decisions)
  unfolding finish_replay
  finish_replay-Succeeds manifest s hashes r done =
      let (x, settled, _) = Reaches-settles s r in
      let hp = breakdown-Succeeds x.gross (length x.fills) in
      let (hash, hh) = input_hash-Succeeds sha256 d in
      let (configuration, hc) = configuration-Succeeds in
      (
        result_of d s manifest hashes x (pnl_of c x.gross (length x.fills)) hash configuration,
        ground (arith, done, settled, hp, hh, hc),
        refl,
      )
