-- ===== src/Portfolio.antt =====
-- Positions, orders and fills: cpp/core/include/volforge/portfolio.hpp and
-- cpp/core/src/portfolio.cpp. The types are in this file, the operations and the proofs in its
-- children. `size_t` positions of an id are natural numbers; `at` refuses a negative id.
pub mod Positions
pub mod Legs
pub mod Submit
pub mod Pending
pub mod Marks
pub mod Expiry
pub mod Settling
pub mod Settlement
pub mod Settled
pub mod Rules
pub mod Matching
pub mod Accounting
pub mod Closing
pub mod Operations
pub mod Opening
pub mod Frame
pub mod Fills
pub mod RuleFrame
use Prim.Native.String.{String}
use volforge.Prelude.{
  ℕ, zero, suc, ◌+◌, ◌-◌, ◌*◌, ◌/◌, ◌%◌, ◌^◌, ◌≤◌, ◌<◌, ◌≡◌, refl, sym, ap, ◌∙◌, subst, ◌≢◌, ◌↔◌,
  ◌⊎◌, inl, inr, Bool, true, false, not, ◌&&◌, ◌||◌, Option, none, some, List, [], ◌∷◌, ◌++◌, map,
  arith, ltb, leb, ◌==◌, if◌then◌else◌, ltb→lt, leb→le, ==_iff, Bool-cases, Option-cases, length,
  get_elem?, set, take, filter_by, All, length-append, All-append, All-left, All-right, All-map,
  length-set, get_elem?-set_self, get_elem?-set_ne, get_elem?-All, ℤ, pos, negsuc, pos_part,
  neg_part, sub_ℕ, ◌+ℤ◌, ◌-ℤ◌, ◌*ℤ◌, neg, abs, ◌≤ℤ◌, ◌<ℤ◌, ltb_ℤ, leb_ℤ, eqb_ℤ, max_ℤ, min_ℤ, div_ℤ,
  +ℤ_parts, -ℤ_parts, neg_parts, eq_of_parts, eqb_ℤ_iff, eqb_ℤ_refl, int_laws, Error, Result, ok,
  err, ◌>>=◌, ◌>>◌, throw_if, or_throw, Result-cases, ok-injective, bind_ok,
}
use volforge.Types.{Timestamp, Price, Qty, Money, InstrumentId}
use volforge.Market.{Quote, two_sided}
use volforge.Costs.{Side, buy, sell, CostPolicy}

abbrev pub opposite : Side → Side
opposite buy = sell
opposite sell = buy

pub record FillModel (F : Type 0) : Type 0 where
  pub fill : Quote → Side → Qty → Option Price
  pub illiquid_spread_ratio : F

-- `CrossSpreadFill::fill`.
unfoldable pub cross_spread_fill : Quote → Side → Qty → Option Price
cross_spread_fill q side qty =
    if not (two_sided q)
    then none
    else if ltb_ℤ q.ask q.bid
    then none
    else some (elim side [ buy ↦ q.ask | sell ↦ q.bid ])

pub data LegState : Type 0 where
  pending_open open_leg pending_close closed_leg cancelled_leg : LegState

pub record Leg : Type 0 where
  pub instrument : InstrumentId
  pub qty : Qty
  pub state : LegState
  pub entry : Price
  pub entry_ts : Timestamp
  pub exit : Price
  pub exit_ts : Timestamp
  pub last_mark : Price
  pub last_mark_ts : Timestamp
  pub settled : Bool

abbrev pub state_filled : LegState → Bool
state_filled open_leg = true
state_filled pending_close = true
state_filled closed_leg = true
state_filled pending_open = false
state_filled cancelled_leg = false

abbrev pub state_live : LegState → Bool
state_live open_leg = true
state_live pending_close = true
state_live pending_open = false
state_live closed_leg = false
state_live cancelled_leg = false

abbrev pub state_cancelled : LegState → Bool
state_cancelled cancelled_leg = true
state_cancelled pending_open = false
state_cancelled open_leg = false
state_cancelled pending_close = false
state_cancelled closed_leg = false

abbrev pub state_open : LegState → Bool
state_open open_leg = true
state_open pending_open = false
state_open pending_close = false
state_open closed_leg = false
state_open cancelled_leg = false

abbrev pub state_pending_open : LegState → Bool
state_pending_open pending_open = true
state_pending_open open_leg = false
state_pending_open pending_close = false
state_pending_open closed_leg = false
state_pending_open cancelled_leg = false

abbrev pub state_pending_close : LegState → Bool
state_pending_close pending_close = true
state_pending_close pending_open = false
state_pending_close open_leg = false
state_pending_close closed_leg = false
state_pending_close cancelled_leg = false

-- `Leg::filled`, `Leg::live`, `Leg::cancelled` and `Leg::closing_side`.
abbrev pub filled : Leg → Bool
filled l = state_filled l.state

abbrev pub live : Leg → Bool
live l = state_live l.state

abbrev pub closing_side : Leg → Side
closing_side l = if ltb_ℤ l.qty (pos 0) then buy else sell

pub record Position : Type 0 where
  pub id : ℕ
  pub label : String
  pub legs : List Leg

pub record PendingOrder : Type 0 where
  pub position : ℕ
  pub leg_index : ℕ
  pub instrument : InstrumentId
  pub side : Side
  pub qty : Qty
  pub submitted_at : Timestamp
  pub eligible_at : Timestamp
  pub closing : Bool
  pub from_rule : Bool

pub data RuleKind : Type 0 where
  stop_loss_pct take_profit_pct exit_at : RuleKind

pub record RiskRule (F : Type 0) : Type 0 where
  pub kind : RuleKind
  pub position : ℕ
  pub leg : Option ℕ
  pub threshold : F
  pub deadline : Timestamp
  pub fired : Bool

pub record TradeRecord : Type 0 where
  pub signal_ts : Timestamp
  pub fill_ts : Timestamp
  pub position : ℕ
  pub instrument : InstrumentId
  pub side : Side
  pub qty : Qty
  pub price : Price
  pub cost : Money
  pub illiquid : Bool
  pub from_rule : Bool
  pub oversized : Bool
  pub settled : Bool

pub record Portfolio (F : Type 0) : Type 0 where
  pub fills : FillModel F
  pub delay : ℤ
  pub positions : List Position
  pub pending : List PendingOrder
  pub rules : List (RiskRule F)
  pub trades : List TradeRecord
  pub realized : Money
  pub costs : CostPolicy
  pub total_costs : Money
  pub illiquid_fills : ℕ
  pub oversized_fills : ℕ
  pub cancelled_orders : ℕ
  pub settled_legs : ℕ
  pub rules_fired : ℕ
  pub closing_from_rule : Bool

-- The constructor, for a fill model and a policy that are there.
unfoldable pub new_portfolio : {F : Type 0} → FillModel F → ℤ → CostPolicy → Result (Portfolio F)
new_portfolio fills delay costs = do
  throw_if (ltb_ℤ delay (pos 0)) Error.invalid_argument
  ok (record {
    fills = fills;
    delay = delay;
    positions = [];
    pending = [];
    rules = [];
    trades = [];
    realized = pos 0;
    costs = costs;
    total_costs = pos 0;
    illiquid_fills = 0;
    oversized_fills = 0;
    cancelled_orders = 0;
    settled_legs = 0;
    rules_fired = 0;
    closing_from_rule = false;
  })

-- `Portfolio::at`.
unfoldable pub at : {F : Type 0} → Portfolio F → ℤ → Result Position
at p (negsuc _) = err Error.out_of_range
at p (pos i) = or_throw (get_elem? p.positions i) Error.out_of_range

-- `positions_[i].legs()[j]`, read and written. A read outside is undefined in the source.
unfoldable pub get_leg : List Position → ℕ → ℕ → Option Leg
get_leg ps i j = elim (get_elem? ps i) [ none ↦ none | some p ↦ get_elem? p.legs j ]

unfoldable pub set_leg : List Position → ℕ → ℕ → Leg → List Position
set_leg [] i j l = []
set_leg (p ∷ ps) zero j l = record p { legs = set p.legs j l } ∷ ps
set_leg (p ∷ ps) (suc i) j l = p ∷ set_leg ps i j l
