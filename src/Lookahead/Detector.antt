-- ===== src/Lookahead/Detector.antt =====
-- `check_lookahead`: the cutoffs that it chooses, and what it compares at each.
use volforge.Prelude.{
  ℕ, zero, suc, ◌+◌, Bool, true, false, not, ◌&&◌, Option, none, some, List, [], ◌∷◌, ◌++◌, ltb,
  leb, ◌==◌, if◌then◌else◌, length, get_elem?, ltb_ℤ, leb_ℤ, eqb_ℤ, Result, ok, ◌>>=◌,
}
use volforge.Types.{Timestamp}
use volforge.Market.{SessionData}
use volforge.Market.Cursor.{events_of, distinct_times, least_timestamp}
use volforge.Costs.{Side, buy, sell}
use volforge.Double.{Double}
use volforge.Portfolio.{TradeRecord}
use volforge.Strategy.{Strategy}
use volforge.Engine.{RunConfig, run_report}
use volforge.Lookahead.{truncated}

abbrev pub same_side : Side → Side → Bool
same_side buy buy = true
same_side sell sell = true
same_side buy sell = false
same_side sell buy = false

unfoldable pub same_trade : TradeRecord → TradeRecord → Bool
same_trade a b =
    eqb_ℤ a.signal_ts b.signal_ts
    && eqb_ℤ a.fill_ts b.fill_ts
    && eqb_ℤ a.instrument b.instrument
    && same_side a.side b.side
    && eqb_ℤ a.qty b.qty
    && eqb_ℤ a.price b.price

-- `std::set`'s insertion.
unfoldable pub insert_time : Timestamp → List Timestamp → List Timestamp
insert_time t [] = t ∷ []
insert_time t (u ∷ us) =
    let rest = insert_time t us in
    if ltb_ℤ t u then t ∷ u ∷ us else if eqb_ℤ t u then u ∷ us else u ∷ rest

-- `std::lower_bound`.
unfoldable pub lower_bound : Timestamp → List Timestamp → ℕ
lower_bound t [] = 0
lower_bound t (u ∷ us) = let rest = lower_bound t us in if ltb_ℤ u t then suc rest else 0

abbrev pub insert_at : List Timestamp → Option Timestamp → List Timestamp
insert_at chosen none = chosen
insert_at chosen (some t) = insert_time t chosen

abbrev pub previous : List Timestamp → ℕ → Option Timestamp
previous times zero = none
previous times (suc i) = get_elem? times i

-- The cutoffs around every fill.
unfoldable pub around_fills : List Timestamp → List TradeRecord → List Timestamp → List Timestamp
around_fills times [] chosen = chosen
around_fills times (t ∷ ts) chosen =
    let i = lower_bound t.fill_ts times in
    around_fills times ts (insert_at (insert_at chosen (get_elem? times i)) (previous times i))

-- The loop that draws the others; `draws` are the indices that the generator gives.
unfoldable pub sampled : ℕ → List Timestamp → List ℕ → List Timestamp → List Timestamp
sampled cutoffs times [] chosen = chosen
sampled cutoffs times (i ∷ draws) chosen =
    let next = insert_at chosen (get_elem? times i) in
    let rest = sampled cutoffs times draws next in
    if not (ltb (length chosen) cutoffs)
    then chosen
    else if leb (length times) (length next)
    then next
    else rest

-- `detail` of a violation, without its text.
pub data Detail : Type 0 where
  count : ℕ → ℕ → Detail
  differs : TradeRecord → TradeRecord → Detail

pub record LookaheadReport : Type 0 where
  pub clean : Bool
  pub cutoffs_tested : ℕ
  pub trades_compared : ℕ
  pub violations : List (Timestamp × Detail)

abbrev pub first_report : LookaheadReport
first_report = record { clean = true; cutoffs_tested = 0; trades_compared = 0; violations = [] }

-- The trades of a log up to the cutoff: `expected`.
unfoldable pub expected : Timestamp → List TradeRecord → List TradeRecord
expected cutoff [] = []
expected cutoff (t ∷ ts) =
    let rest = expected cutoff ts in if leb_ℤ t.fill_ts cutoff then t ∷ rest else rest

-- The first pair of trades that are not the same.
unfoldable pub first_difference : List TradeRecord → List TradeRecord → Option Detail
first_difference [] log = none
first_difference (t ∷ ts) [] = none
first_difference (t ∷ ts) (u ∷ us) =
    let rest = first_difference ts us in if same_trade t u then rest else some (differs t u)

unfoldable pub compare_logs : List TradeRecord → List TradeRecord → Option Detail
compare_logs full partial =
    let rest = first_difference full partial in
    if not (length partial == length full)
    then some (count (length partial) (length full))
    else rest

abbrev pub violated : Timestamp → LookaheadReport → Option Detail → LookaheadReport
violated cutoff r none = r
violated cutoff r (some detail) = record r {
  clean = false;
  violations = r.violations ++ ((cutoff, detail) ∷ []);
}

-- The program is the coroutine, which each run binds to its session.
module _ {F S : Type 0} ⦃d : Double F⦄ (config : RunConfig F)
    (program : SessionData → Strategy F S) where
  -- One cutoff, with at least one instrument left.
  unfoldable pub check_cutoff :
      SessionData → List TradeRecord → LookaheadReport → Timestamp → Result LookaheadReport
  check_cutoff s log r cutoff = do
    partial ← run_report config (program (truncated s cutoff)) (truncated s cutoff)
    ok (
        violated cutoff
          (record r { trades_compared = r.trades_compared + length (expected cutoff log) })
          (compare_logs (expected cutoff log) partial.trade_log))

  unfoldable pub check_cutoffs :
      SessionData → List TradeRecord → LookaheadReport → List Timestamp → Result LookaheadReport
  check_cutoffs s log r [] = ok r
  check_cutoffs s log r (c ∷ cs) =
      let r' : LookaheadReport = record r { cutoffs_tested = r.cutoffs_tested + 1 } in
      elim (truncated s c).instruments [
        | [] ↦ check_cutoffs s log r' cs
        | _ ∷ _ ↦ check_cutoff s log r' c >>= λ r''. check_cutoffs s log r'' cs
      ]

  unfoldable pub check_lookahead : SessionData → ℕ → List ℕ → Result LookaheadReport
  check_lookahead s cutoffs draws = do
    full ← run_report config (program s) s
    let times = distinct_times least_timestamp (events_of s)
    if ltb (length times) 2
        then ok first_report
        else check_cutoffs s full.trade_log first_report
            (sampled cutoffs times draws (around_fills times full.trade_log []))
