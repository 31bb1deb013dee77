-- ===== src/Portfolio/Marks.antt =====
-- Carried marks: `Portfolio::refresh_marks`.
use volforge.Prelude.{not, Option, none, some, map, if◌then◌else◌, pos, ltb_ℤ}
use volforge.Types.{Price}
use volforge.Market.{MarketView, Quote, quote}
use volforge.Portfolio.{Portfolio, Position, Leg, live}

-- The mark that a quote gives a leg; `none` keeps the old one.
unfoldable pub fresh_mark : Leg → Quote → Option Price
fresh_mark l q =
    let side = if ltb_ℤ l.qty (pos 0) then q.ask else q.bid in
    if ltb_ℤ (pos 0) side
    then some side
    else if ltb_ℤ (pos 0) l.qty
    then some (pos 0)
    else if ltb_ℤ (pos 0) q.last
    then some q.last
    else none

abbrev pub marked : MarketView → Leg → Option Quote → Leg
marked m l none = l
marked m l (some q) = elim (fresh_mark l q) [
  | none ↦ l
  | some price ↦ record l { last_mark = price; last_mark_ts = m.now }
]

unfoldable pub refresh_leg : MarketView → Leg → Leg
unfolding fresh_mark
refresh_leg m l = if not (live l) then l else marked m l (quote m l.instrument)

unfoldable pub refresh_position : MarketView → Position → Position
refresh_position m p = record p { legs = map (refresh_leg m) p.legs }

unfoldable pub refresh_marks : {F : Type 0} → MarketView → Portfolio F → Portfolio F
unfolding refresh_position
refresh_marks m p = record p { positions = map (refresh_position m) p.positions }
