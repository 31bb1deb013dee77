-- ===== src/Portfolio/Submit.antt =====
-- Submitting orders, and withdrawing those that did not fill.
use Prim.Native.String.{String}
use volforge.Prelude.{
  ℕ, zero, suc, ◌+◌, Bool, true, false, not, ◌&&◌, ◌||◌, List, [], ◌∷◌, ◌++◌, map, ◌==◌,
  if◌then◌else◌, length, get_elem?, pos, ◌+ℤ◌, neg, abs, leb_ℤ, Error, Result, ok, ◌>>=◌, ◌>>◌,
  throw_if, or_throw,
}
use volforge.Types.{Timestamp, Qty, InstrumentId}
use volforge.Costs.{Side, buy, sell}
use volforge.Portfolio.{
  Portfolio, Position, Leg, PendingOrder, RiskRule, at, get_leg, set_leg, closing_side,
  pending_open, open_leg, pending_close, cancelled_leg, state_open, state_pending_open,
  state_pending_close,
}
use volforge.Portfolio.Positions.{is_open}

abbrev pub new_leg : Qty → InstrumentId → Leg
new_leg qty i = record {
  instrument = i;
  qty = qty;
  state = pending_open;
  entry = pos 0;
  entry_ts = pos 0;
  exit = pos 0;
  exit_ts = pos 0;
  last_mark = pos 0;
  last_mark_ts = pos 0;
  settled = false;
}

-- The orders that the loop of `submit_open` submits, the first of them for leg `j`.
unfoldable pub open_orders :
    (id j : ℕ) (side : Side) (qty : Qty) (now eligible : Timestamp) (from_rule : Bool)
    → List InstrumentId
    → List PendingOrder
open_orders id j side qty now eligible from_rule [] = []
open_orders id j side qty now eligible from_rule (i ∷ is) =
    record {
      position = id;
      leg_index = j;
      instrument = i;
      side = side;
      qty = qty;
      submitted_at = now;
      eligible_at = eligible;
      closing = false;
      from_rule = from_rule;
    }
    ∷ open_orders id (suc j) side qty now eligible from_rule is

unfoldable pub is_empty : List InstrumentId → Bool
is_empty [] = true
is_empty (_ ∷ _) = false

abbrev pub signed_qty : Side → Qty → Qty
signed_qty sell q = neg q
signed_qty buy q = q

abbrev pub withdraws : ℕ → PendingOrder → Bool
withdraws id o = (o.position == id) && not o.closing

-- Writing one leg, and keeping or dropping one order.
abbrev pub write_leg : List Position → PendingOrder → (Leg → Leg) → Result (List Position)
write_leg ps o f = do
  l ← or_throw (get_leg ps o.position o.leg_index) Error.out_of_bounds
  ok (set_leg ps o.position o.leg_index (f l))

abbrev pub Swept : Type 0
Swept = List Position × List PendingOrder × ℕ

abbrev pub sweep : Bool → PendingOrder → Swept → Swept
sweep drop o (ps, keep, n) = if drop then (ps, keep, suc n) else (ps, o ∷ keep, n)

abbrev pub cancelled : Leg → Leg
cancelled l = record l { state = cancelled_leg }

abbrev pub cancel_one : ℕ → List Position → PendingOrder → Result (List Position)
cancel_one id ps o = if withdraws id o then write_leg ps o cancelled else ok ps

-- The first loop of `submit_close`: the positions with their unfilled legs cancelled, the orders
-- that stay, and the number of those that go.
unfoldable pub cancel_openings : ℕ → List Position → List PendingOrder → Result Swept
cancel_openings id ps [] = ok (ps, [], 0)
cancel_openings id ps (o ∷ os) = do
  ps' ← cancel_one id ps o
  rest ← cancel_openings id ps' os
  ok (sweep (withdraws id o) o rest)

abbrev pub goes_back : PendingOrder → Leg → Bool
goes_back o l = o.closing && state_pending_close l.state

abbrev pub abandoned : PendingOrder → Leg → Leg
abandoned o l =
    if goes_back o l
    then record l { state = open_leg }
    else if not o.closing && state_pending_open l.state
    then record l { state = cancelled_leg }
    else l

-- The loop of `cancel_working_orders`: the positions, and those whose exits are abandoned.
unfoldable pub abandon : List Position → List PendingOrder → Result (List Position × List ℕ)
abandon ps [] = ok (ps, [])
abandon ps (o ∷ os) = do
  l ← or_throw (get_leg ps o.position o.leg_index) Error.out_of_bounds
  (ps', exits) ← abandon (set_leg ps o.position o.leg_index (abandoned o l)) os
  ok (ps', if goes_back o l then o.position ∷ exits else exits)

unfoldable pub contains : ℕ → List ℕ → Bool
contains x [] = false
contains x (y ∷ ys) = (x == y) || contains x ys

module _ {F : Type 0} where
  abbrev pub opened :
      Portfolio F → String → List InstrumentId → Side → Qty → Timestamp → Portfolio F
  opened p label instruments side qty now =
      let id = length p.positions in
      record p {
        positions =
            p.positions
            ++ (record {
              id = id;
              label = label;
              legs = map (new_leg (signed_qty side qty)) instruments;
            }
                ∷ []);
        pending =
            p.pending
            ++ open_orders id 0 side qty now (now +ℤ p.delay) p.closing_from_rule instruments;
      }

  -- `Portfolio::submit_open`.
  unfoldable pub submit_open :
      Portfolio F → String → List InstrumentId → Side → Qty → Timestamp → Result (Portfolio F × ℕ)
  unfolding is_empty
  submit_open p label instruments side qty now = do
    throw_if (is_empty instruments) Error.invalid_argument
    throw_if (leb_ℤ qty (pos 0)) Error.invalid_argument
    ok (opened p label instruments side qty now, length p.positions)

  abbrev pub close_order : Portfolio F → ℕ → ℕ → Leg → Timestamp → PendingOrder
  close_order p id j l now = record {
    position = id;
    leg_index = j;
    instrument = l.instrument;
    side = closing_side l;
    qty = pos (abs l.qty);
    submitted_at = now;
    eligible_at = now +ℤ p.delay;
    closing = true;
    from_rule = p.closing_from_rule;
  }

  abbrev pub close_open_leg : Portfolio F → ℕ → ℕ → Leg → Timestamp → Portfolio F
  close_open_leg p id j l now = record p {
    positions = set_leg p.positions id j (record l { state = pending_close });
    pending = p.pending ++ (close_order p id j l now ∷ []);
  }

  -- `Portfolio::submit_close_leg`.
  unfoldable pub submit_close_leg : Portfolio F → ℕ → ℕ → Timestamp → Result (Portfolio F)
  submit_close_leg p id j now = do
    held ← at p (pos id)
    l ← or_throw (get_elem? held.legs j) Error.out_of_range
    ok (if not (state_open l.state) then p else close_open_leg p id j l now)

  -- The second loop of `submit_close`, with `n` legs to go from leg `j` on.
  unfoldable pub close_legs : ℕ → Portfolio F → ℕ → ℕ → Timestamp → Result (Portfolio F)
  close_legs zero p id j now = ok p
  close_legs (suc n) p id j now = do
    l ← or_throw (get_leg p.positions id j) Error.out_of_bounds
    p' ← if state_open l.state then submit_close_leg p id j now else ok p
    close_legs n p' id (suc j) now

  abbrev pub withdrawn : Portfolio F → Swept → Portfolio F
  withdrawn p (ps, keep, n) = record p {
    positions = ps;
    pending = keep;
    cancelled_orders = p.cancelled_orders + n;
  }

  -- `Portfolio::submit_close`.
  unfoldable pub submit_close : Portfolio F → ℕ → Timestamp → Result (Portfolio F)
  submit_close p id now = do
    held ← at p (pos id)
    swept ← cancel_openings id p.positions p.pending
    close_legs (length held.legs) (withdrawn p swept) id 0 now

  -- Re-arming the rules whose exits were abandoned.
  unfoldable pub rearm_one : List Position → List ℕ → RiskRule F → Result (RiskRule F)
  unfolding contains
  rearm_one ps exits r =
      if not r.fired
      then ok r
      else if not (contains r.position exits)
      then ok r
      else or_throw (get_elem? ps r.position) Error.out_of_range >>= λ q.
          ok (if is_open q then record r { fired = false } else r)

  unfoldable pub rearm : List Position → List ℕ → List (RiskRule F) → Result (List (RiskRule F))
  rearm ps exits [] = ok []
  rearm ps exits (r ∷ rs) = do r' ← rearm_one ps exits r; rs' ← rearm ps exits rs; ok (r' ∷ rs')

  -- `Portfolio::cancel_working_orders`.
  unfoldable pub cancel_working_orders : Portfolio F → Result (Portfolio F × ℕ)
  cancel_working_orders p = do
    let n = length p.pending
    (ps, exits) ← abandon p.positions p.pending
    rules ← rearm ps exits p.rules
    ok (
      record p {
        positions = ps;
        pending = [];
        cancelled_orders = p.cancelled_orders + n;
        rules = rules;
      },
      n,
    )
