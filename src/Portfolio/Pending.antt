-- ===== src/Portfolio/Pending.antt =====
-- Filling what has become eligible: `Portfolio::process_pending`.
use volforge.Prelude.{
  ℕ, ◌+◌, Bool, false, ◌&&◌, Option, none, some, List, [], ◌∷◌, ◌++◌, if◌then◌else◌, ℤ, pos, ◌+ℤ◌,
  ◌-ℤ◌, ltb_ℤ, Error, Result, ok, ◌>>=◌, or_throw,
}
use volforge.Types.{Price, Money, notional}
use volforge.Instrument.{InstrumentSpec, spec}
use volforge.Market.{MarketView, Quote, quote, mid, spread}
use volforge.Costs.{CostContext, buy, sell}
use volforge.Double.{Double, to_double}
use volforge.Portfolio.{
  Portfolio, Leg, PendingOrder, FillModel, get_leg, set_leg, open_leg, closed_leg,
}

-- What a fill does to the leg.
abbrev pub filled_leg : MarketView → PendingOrder → Price → Leg → Leg
filled_leg m o price l =
    if o.closing
    then record l { exit = price; exit_ts = m.now; state = closed_leg }
    else record l { entry = price; entry_ts = m.now; state = open_leg }

-- What a fill adds to the realised profit.
abbrev pub realizes : PendingOrder → Price → Leg → Money
realizes o price l = if o.closing then notional price l.qty -ℤ notional l.entry l.qty else pos 0

abbrev pub is_oversized : PendingOrder → Quote → Bool
is_oversized o q =
    let displayed : ℤ = elim o.side [ buy ↦ q.ask_qty | sell ↦ q.bid_qty ] in
    ltb_ℤ (pos 0) displayed && ltb_ℤ displayed o.qty

abbrev pub cost_context : InstrumentSpec → PendingOrder → Price → CostContext
cost_context s o price = record {
  instrument = s;
  price = price;
  qty = o.qty;
  side = o.side;
  exercise = false;
  intrinsic = pos 0;
}

abbrev pub count_if : Bool → ℕ → ℕ
count_if b n = if b then n + 1 else n

module _ {F : Type 0} ⦃d : Double F⦄ where
  unfoldable pub is_illiquid : FillModel F → Quote → Bool
  is_illiquid fills q =
      d.lt (d.of_int (pos 0)) (to_double (mid q))
      && d.lt fills.illiquid_spread_ratio (d.div (to_double (spread q)) (to_double (mid q)))

  -- The portfolio after a fill of `o` at `price`, for a cost and a leg that are known.
  abbrev pub executed :
      MarketView → Portfolio F → PendingOrder → Quote → Price → Money → Leg → Portfolio F
  executed m p o q price cost l = record p {
    positions = set_leg p.positions o.position o.leg_index (filled_leg m o price l);
    trades =
        p.trades
        ++ (record {
          signal_ts = o.submitted_at;
          fill_ts = m.now;
          position = o.position;
          instrument = o.instrument;
          side = o.side;
          qty = o.qty;
          price = price;
          cost = cost;
          illiquid = is_illiquid p.fills q;
          from_rule = o.from_rule;
          oversized = is_oversized o q;
          settled = false;
        }
            ∷ []);
    realized = p.realized +ℤ realizes o price l;
    total_costs = p.total_costs +ℤ cost;
    illiquid_fills = count_if (is_illiquid p.fills q) p.illiquid_fills;
    oversized_fills = count_if (is_oversized o q) p.oversized_fills;
  }

  unfoldable pub execute :
      MarketView → Portfolio F → PendingOrder → Quote → Price → Result (Portfolio F)
  execute m p o q price = do
    s ← spec m.registry o.instrument
    l ← or_throw (get_leg p.positions o.position o.leg_index) Error.out_of_bounds
    ok (executed m p o q price (p.costs (cost_context s o price)) l)

  abbrev pub tradeable : FillModel F → PendingOrder → Option Quote → Option (Quote × Price)
  tradeable fills o none = none
  tradeable fills o (some q) = elim (fills.fill q o.side o.qty) [
    | none ↦ none
    | some price ↦ some (q, price)
  ]

  -- The market and the price at which an order fills now, if it does.
  abbrev pub fill_of : MarketView → Portfolio F → PendingOrder → Option (Quote × Price)
  fill_of m p o =
      if ltb_ℤ m.now o.eligible_at then none else tradeable p.fills o (quote m o.instrument)

  -- The loop: `still` is `still_pending`.
  unfoldable pub process_orders :
      MarketView
      → Portfolio F
      → List PendingOrder
      → List PendingOrder
      → Result (Portfolio F × List PendingOrder)
  process_orders m p [] still = ok (p, still)
  process_orders m p (o ∷ os) still = elim (fill_of m p o) [
    | none ↦ process_orders m p os (still ++ (o ∷ []))
    | some (q, price) ↦ execute m p o q price >>= λ p'. process_orders m p' os still
  ]

  unfoldable pub process_pending : MarketView → Portfolio F → Result (Portfolio F)
  process_pending m p = do
    (p', still) ← process_orders m p p.pending []
    ok (record p' { pending = still })
