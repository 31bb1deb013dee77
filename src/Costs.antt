-- ===== src/Costs.antt =====
-- Transaction costs: cpp/core/include/volforge/costs.hpp and cpp/core/src/costs.cpp. A policy is a
-- virtual function there, and a function here.
use volforge.Prelude.{Bool, not, if◌then◌else◌, pos}
use volforge.Types.{Price, Qty, Money}
use volforge.Instrument.{InstrumentSpec}
use volforge.Double.{Double, to_double}

pub data Side : Type 0 where
  buy sell : Side

pub record CostContext : Type 0 where
  pub instrument : InstrumentSpec
  pub price : Price
  pub qty : Qty
  pub side : Side
  pub exercise : Bool
  pub intrinsic : Price

abbrev pub CostPolicy : Type 0
CostPolicy = CostContext → Money

pub record IndianFnoRates (F : Type 0) : Type 0 where
  pub stt_sell_pct : F
  pub stt_exercise_pct : F
  pub transaction_pct : F
  pub sebi_pct : F
  pub ipft_pct : F
  pub stamp_buy_pct : F
  pub gst_pct : F
  pub brokerage_per_order : Money

module _ {F : Type 0} ⦃d : Double F⦄ where
  open d use {of_int, literal, add, mul, lt, llround}

  unfoldable pub default_rates : IndianFnoRates F
  default_rates = record {
    stt_sell_pct = literal 15 4;
    stt_exercise_pct = literal 15 4;
    transaction_pct = literal 3553 7;
    sebi_pct = literal 1 6;
    ipft_pct = literal 1 9;
    stamp_buy_pct = literal 3 5;
    gst_pct = literal 18 2;
    brokerage_per_order = pos 2000;
  }

  -- `std::llround(amount * 100.0)`.
  abbrev in_minor : F → Money
  in_minor amount = llround (mul amount (of_int (pos 100)))

  exercise_cost : IndianFnoRates F → CostContext → Money
  exercise_cost rates c =
      let intrinsic = mul (to_double c.intrinsic) (of_int c.qty) in
      if not (lt (of_int (pos 0)) intrinsic)
      then pos 0
      else llround (mul (mul intrinsic rates.stt_exercise_pct) (of_int (pos 100)))

  -- The levy on the side that pays one.
  statutory : IndianFnoRates F → Side → F → F
  statutory rates sell premium = mul premium rates.stt_sell_pct
  statutory rates buy premium = mul premium rates.stamp_buy_pct

  trade_cost : IndianFnoRates F → CostContext → Money
  unfolding statutory
  trade_cost rates c =
      let premium = mul (to_double c.price) (of_int c.qty) in
      let brokerage : F = to_double rates.brokerage_per_order in
      let exchange = mul premium (add (add rates.transaction_pct rates.sebi_pct) rates.ipft_pct) in
      let gst = mul (add brokerage exchange) rates.gst_pct in
      if not (lt (of_int (pos 0)) premium)
      then in_minor (mul brokerage (add (of_int (pos 1)) rates.gst_pct))
      else in_minor (add (add (add brokerage exchange) gst) (statutory rates c.side premium))

  -- `IndianFnOCosts::cost_of`.
  unfoldable pub indian_fno_cost_of : IndianFnoRates F → CostPolicy
  unfolding exercise_cost trade_cost
  indian_fno_cost_of rates c = if c.exercise then exercise_cost rates c else trade_cost rates c

-- `NoCosts::cost_of`.
unfoldable pub no_cost_of : CostPolicy
no_cost_of c = pos 0
