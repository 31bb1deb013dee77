-- ===== src/Portfolio/Expiry.antt =====
-- Cash settlement: `Portfolio::settle_expiry`.
use volforge.Prelude.{
  ℕ, suc, ◌+◌, Bool, true, false, not, ◌&&◌, List, [], ◌∷◌, ◌++◌, if◌then◌else◌, pos, ◌+ℤ◌, ◌-ℤ◌,
  abs, ltb_ℤ, eqb_ℤ, Result, ok, ◌>>=◌,
}
use volforge.Types.{Date, Timestamp, Price, Money, call, put, notional}
use volforge.Instrument.{InstrumentSpec, InstrumentRegistry, spec, is_option}
use volforge.Market.{MarketView}
use volforge.Costs.{sell}
use volforge.Double.{Double, to_double, from_double, max_double}
use volforge.Portfolio.{
  Portfolio, Position, Leg, PendingOrder, set_leg, live, closing_side, closed_leg, cancelled_leg,
  state_pending_open,
}
use volforge.Portfolio.Submit.{Swept, sweep, write_leg, withdrawn}

abbrev pub expires : InstrumentSpec → Date → Bool
expires s expiry = is_option s && eqb_ℤ s.expiry expiry

abbrev pub settled_leg : Leg → Price → Timestamp → Leg
settled_leg l price when = record l {
  exit = price;
  exit_ts = when;
  state = closed_leg;
  settled = true;
}

abbrev pub unopened : PendingOrder → Leg → Leg
unopened o l =
    if not o.closing && state_pending_open l.state then record l { state = cancelled_leg } else l

abbrev pub drop_one : Bool → List Position → PendingOrder → Result (List Position)
drop_one drop ps o = if drop then write_leg ps o (unopened o) else ok ps

-- Dropping the orders that work against an instrument which has settled.
unfoldable pub drop_settled :
    InstrumentRegistry → Date → List Position → List PendingOrder → Result Swept
drop_settled r expiry ps [] = ok (ps, [], 0)
drop_settled r expiry ps (o ∷ os) = do
  s ← spec r o.instrument
  ps' ← drop_one (expires s expiry) ps o
  rest ← drop_settled r expiry ps' os
  ok (sweep (expires s expiry) o rest)

module _ {F : Type 0} ⦃d : Double F⦄ where
  unfoldable pub intrinsic_value : InstrumentSpec → F → F
  intrinsic_value s level = elim s.right [
    | call ↦ max_double (d.of_int (pos 0)) (d.sub level (to_double s.strike))
    | put ↦ max_double (d.of_int (pos 0)) (d.sub (to_double s.strike) level)
  ]

  abbrev pub settle_price : InstrumentSpec → F → Price
  settle_price s level = from_double (intrinsic_value s level)

  -- The levy on exercise, on the buyer of an option in the money.
  abbrev pub settle_cost : Portfolio F → InstrumentSpec → Leg → F → Money
  settle_cost p s l level =
      if ltb_ℤ (pos 0) l.qty && d.lt (d.of_int (pos 0)) (intrinsic_value s level)
      then p.costs (record {
        instrument = s;
        price = settle_price s level;
        qty = l.qty;
        side = sell;
        exercise = true;
        intrinsic = settle_price s level;
      })
      else pos 0

  -- One leg, at place `j` of position `i`, settled.
  abbrev pub settle_one : Portfolio F → ℕ → ℕ → Leg → InstrumentSpec → F → Timestamp → Portfolio F
  settle_one p i j l s level when =
      let price = settle_price s level in
      record p {
        positions = set_leg p.positions i j (settled_leg l price when);
        realized = p.realized +ℤ (notional price l.qty -ℤ notional l.entry l.qty);
        total_costs = p.total_costs +ℤ settle_cost p s l level;
        trades =
            p.trades
            ++ (record {
              signal_ts = when;
              fill_ts = when;
              position = i;
              instrument = l.instrument;
              side = closing_side l;
              qty = pos (abs l.qty);
              price = price;
              cost = settle_cost p s l level;
              illiquid = false;
              from_rule = false;
              oversized = false;
              settled = true;
            }
                ∷ []);
        settled_legs = p.settled_legs + 1;
      }

  unfoldable pub settle_leg :
      InstrumentRegistry
      → Date
      → F
      → Timestamp
      → Portfolio F
      → ℕ
      → ℕ
      → Leg
      → Result (Portfolio F × ℕ)
  settle_leg r expiry level when p i j l =
      if not (live l)
      then ok (p, 0)
      else spec r l.instrument >>= λ s.
          if not (expires s expiry) then ok (p, 0) else ok (settle_one p i j l s level when, 1)

  -- The loop over the legs of one position, then the one over the positions. The legs are those
  -- before the loops: each step writes only the leg that it visits.
  unfoldable pub settle_legs :
      InstrumentRegistry
      → Date
      → F
      → Timestamp
      → Portfolio F
      → ℕ
      → ℕ
      → List Leg
      → Result (Portfolio F × ℕ)
  settle_legs r expiry level when p i j [] = ok (p, 0)
  settle_legs r expiry level when p i j (l ∷ ls) = do
    (p', n) ← settle_leg r expiry level when p i j l
    (p'', rest) ← settle_legs r expiry level when p' i (suc j) ls
    ok (p'', n + rest)

  unfoldable pub settle_positions :
      InstrumentRegistry
      → Date
      → F
      → Timestamp
      → Portfolio F
      → ℕ
      → List Position
      → Result (Portfolio F × ℕ)
  settle_positions r expiry level when p i [] = ok (p, 0)
  settle_positions r expiry level when p i (q ∷ qs) = do
    (p', n) ← settle_legs r expiry level when p i 0 q.legs
    (p'', rest) ← settle_positions r expiry level when p' (suc i) qs
    ok (p'', n + rest)

  unfoldable pub settle_expiry :
      MarketView → Portfolio F → Date → F → Timestamp → Result (Portfolio F × ℕ)
  settle_expiry m p expiry level when = do
    let r = m.registry
    (p', settled) ← settle_positions r expiry level when p 0 p.positions
    swept ← drop_settled r expiry p'.positions p'.pending
    ok (withdrawn p' swept, settled)
