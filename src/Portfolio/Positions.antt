-- ===== src/Portfolio/Positions.antt =====
-- `Position`: its state and its valuation.
use volforge.Prelude.{
  ℕ, Bool, true, false, not, ◌&&◌, ◌||◌, none, some, List, [], ◌∷◌, ◌==◌, if◌then◌else◌, get_elem?,
  pos, negsuc, ◌+ℤ◌, ◌-ℤ◌, abs, ltb_ℤ, leb_ℤ, eqb_ℤ, Error, Result, ok, ◌>>=◌, or_throw,
}
use volforge.Types.{Price, Money, notional}
use volforge.Market.{MarketView, Quote, quote}
use volforge.Double.{Double}
use volforge.Portfolio.{
  Leg, LegState, Position, filled, live, state_cancelled, state_pending_open, closed_leg,
  pending_open, open_leg, pending_close, cancelled_leg,
}

-- The loop of `Position::established`.
established_from : Bool → List Leg → Bool
established_from any [] = any
established_from any (l ∷ ls) =
    let skip = established_from any ls in
    let on = established_from true ls in
    if state_cancelled l.state then skip else if not (filled l) then false else on

unfoldable pub established : Position → Bool
unfolding established_from
established p = established_from false p.legs

any_open : List Leg → Bool
any_open [] = false
any_open (l ∷ ls) = (live l || state_pending_open l.state) || any_open ls

-- `Position::open`.
unfoldable pub is_open : Position → Bool
unfolding any_open
is_open p = any_open p.legs

unfoldable pub is_closed : Position → Bool
unfolding established is_open
is_closed p = established p && not (is_open p)

sum_entries : List Leg → Money
sum_entries [] = pos 0
sum_entries (l ∷ ls) =
    let rest = sum_entries ls in if not (filled l) then rest else notional l.entry l.qty +ℤ rest

unfoldable pub entry_notional : Position → Money
unfolding sum_entries
entry_notional p = sum_entries p.legs

-- What stands in when nothing is quoting.
carried_mark : Leg → Price
carried_mark l =
    if not (eqb_ℤ l.last_mark_ts (pos 0)) && leb_ℤ (pos 0) l.last_mark
    then l.last_mark
    else if filled l
    then l.entry
    else negsuc 0

quoted_mark : Leg → Quote → Price
unfolding carried_mark
quoted_mark l q =
    let side = if ltb_ℤ l.qty (pos 0) then q.ask else q.bid in
    if ltb_ℤ (pos 0) side
    then side
    else if ltb_ℤ (pos 0) l.qty
    then pos 0
    else if ltb_ℤ (pos 0) q.last
    then q.last
    else carried_mark l

-- `Position::mark_for`.
unfoldable pub mark_for : Leg → MarketView → Price
unfolding carried_mark quoted_mark
mark_for l m = elim (quote m l.instrument) [ none ↦ carried_mark l | some q ↦ quoted_mark l q ]

abbrev pub is_closed_state : LegState → Bool
is_closed_state closed_leg = true
is_closed_state pending_open = false
is_closed_state open_leg = false
is_closed_state pending_close = false
is_closed_state cancelled_leg = false

-- The body of `Position::pnl_of`, for a leg that is there.
unfoldable pub pnl_leg : Leg → MarketView → Money
pnl_leg l m =
    if not (filled l)
    then pos 0
    else if is_closed_state l.state
    then notional l.exit l.qty -ℤ notional l.entry l.qty
    else if ltb_ℤ (mark_for l m) (pos 0)
    then pos 0
    else notional (mark_for l m) l.qty -ℤ notional l.entry l.qty

unfoldable pub pnl_of : Position → ℕ → MarketView → Result Money
pnl_of p i m = do l ← or_throw (get_elem? p.legs i) Error.out_of_range; ok (pnl_leg l m)

sum_pnl : List Leg → MarketView → Money
sum_pnl [] m = pos 0
sum_pnl (l ∷ ls) m = pnl_leg l m +ℤ sum_pnl ls m

-- `Position::pnl`.
unfoldable pub pnl : Position → MarketView → Money
unfolding sum_pnl
pnl p m = sum_pnl p.legs m

sum_unrealized : List Leg → MarketView → Money
sum_unrealized [] m = pos 0
sum_unrealized (l ∷ ls) m =
    let rest = sum_unrealized ls m in if is_closed_state l.state then rest else pnl_leg l m +ℤ rest

-- `Portfolio::unrealized`.
unfoldable pub unrealized : List Position → MarketView → Money
unfolding sum_unrealized
unrealized [] m = pos 0
unrealized (p ∷ ps) m = sum_unrealized p.legs m +ℤ unrealized ps m

module _ {F : Type 0} ⦃d : Double F⦄ where
  -- A loss or a gain as a fraction of the premium at risk.
  abbrev fraction : Money → Money → F
  fraction gain premium =
      if abs premium == 0
      then d.of_int (pos 0)
      else d.div (d.of_int gain) (d.of_int (pos (abs premium)))

  unfoldable pub pnl_pct_of : Position → ℕ → MarketView → Result F
  pnl_pct_of p i m = do
    l ← or_throw (get_elem? p.legs i) Error.out_of_range
    ok (
        if not (filled l)
        then d.of_int (pos 0)
        else fraction (pnl_leg l m) (notional l.entry l.qty))

  unfoldable pub pnl_pct : Position → MarketView → F
  pnl_pct p m =
      if not (established p) then d.of_int (pos 0) else fraction (pnl p m) (entry_notional p)
