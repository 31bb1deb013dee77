-- ===== src/Portfolio/Accounting.antt =====
-- The operations of the portfolio keep the ledger, and never touch a leg that is not there.
use mathlib.Core.List.{append-nil}
use volforge.Prelude.{
  ◌≡◌, refl, ap, subst, inl, inr, List, [], ◌∷◌, ◌++◌, arith, Option-cases, ℤ, pos, negsuc, ◌+ℤ◌,
  Safe, Safe-bind,
}
use volforge.Types.{Price, InstrumentId}
use volforge.Instrument.{InstrumentRegistry, spec}
use volforge.Market.{MarketView, Quote}
use volforge.Double.{Double}
use volforge.Portfolio.{Portfolio, Leg, PendingOrder}
use volforge.Portfolio.Legs.{booked}
use volforge.Portfolio.Pending.{
  filled_leg, realizes, fill_of, execute, process_orders, process_pending,
}
use volforge.Portfolio.Matching.{Ledger, Ledger-step, Ledger-shift, middle_leg}

abbrev pub Balanced : {F : Type 0} → Portfolio F → Type 0
Balanced p = Ledger p.realized p.positions p.pending

realizes-eq-booked :
    (m : MarketView) (o : PendingOrder) (price : Price) (l : Leg)
    → realizes o price l ≡ booked (filled_leg m o price l)
realizes-eq-booked m o price l = ground arith

pub spec-Safe : (r : InstrumentRegistry) (id : InstrumentId) → Safe (spec r id) (λ _. Unit {0})
unfolding spec
spec-Safe r (negsuc i) = refl
spec-Safe r (pos i) = ground arith

module _ {F : Type 0} ⦃d : Double F⦄ where
  execute-Ledger :
      (m : MarketView) (p : Portfolio F) (o : PendingOrder) (q : Quote) (price : Price)
      → (xs ys : List PendingOrder) → Ledger p.realized p.positions (xs ++ (o ∷ ys))
      → Safe (execute m p o q price) (λ p'. Ledger p'.realized p'.positions (xs ++ ys))
  unfolding execute
  execute-Ledger m p o q price xs ys g =
      let w = middle_leg p.realized p.positions o xs ys g in
      Safe-bind (λ _. Unit {0}) _ (spec m.registry o.instrument) _
        (spec-Safe m.registry o.instrument)
        λ s _. rw w.found (
          Ledger-step p.realized _ p.positions o xs ys w.leg (filled_leg m o price w.leg) g w.found
            (ap (λ (x : ℤ). p.realized +ℤ x) (realizes-eq-booked m o price w.leg)))

  process_orders-Ledger :
      (m : MarketView) (p : Portfolio F) (os still : List PendingOrder)
      → Ledger p.realized p.positions (still ++ os)
      → Safe (process_orders m p os still) (λ r. Ledger (r.0).realized (r.0).positions r.1)
  unfolding process_orders
  process_orders-Ledger m p [] still g = subst (Ledger p.realized p.positions) (append-nil still) g
  process_orders-Ledger m p (o ∷ os) still g = elim (Option-cases (fill_of m p o)) [
    | inl e ↦
        rw (e, process_orders)
          (process_orders-Ledger m p os (still ++ (o ∷ []))
            (Ledger-shift p.realized p.positions o still os g))
    | inr ((q, price), e) ↦
        rw (e, process_orders)
          (Safe-bind _ _ (execute m p o q price) _ (execute-Ledger m p o q price still os g)
            λ p' g'. process_orders-Ledger m p' os still g')
  ]

  -- From a balanced portfolio `process_pending` reads and writes only legs that are there, and if
  -- it returns, the portfolio is balanced again: the realised profit is what the closed legs
  -- earned, and each order that still rests has its leg.
  pub process_pending-Balanced :
      (m : MarketView) (p : Portfolio F) → Balanced p → Safe (process_pending m p) Balanced
  unfolding process_pending
  process_pending-Balanced m p g =
      Safe-bind _ _ (process_orders m p p.pending []) _ (process_orders-Ledger m p p.pending [] g)
        λ r h. h
