-- ===== src/Portfolio/Fills.antt =====
-- What `process_pending` adds to the trades.
use mathlib.Core.Option.{some-injective}
use mathlib.Core.List.{append_assoc, append-nil}
use volforge.Prelude.{
  ◌≡◌, refl, sym, ap, ◌∙◌, subst, inl, inr, Bool, true, false, Option, none, some, List, [], ◌∷◌,
  ◌++◌, arith, if◌then◌else◌, Bool-cases, Option-cases, filter_by, All, All-append, ℤ, pos, ◌+ℤ◌,
  ◌≤ℤ◌, ltb_ℤ, int_laws, parts_of_eq, Error, or_throw, Returns, Returns-bind, Returns-then,
  Returns-map,
}
use volforge.Types.{Timestamp, Price, Money}
use volforge.Market.{MarketView, Quote, quote}
use volforge.Instrument.{spec}
use volforge.Double.{Double}
use volforge.Portfolio.{Portfolio, FillModel, PendingOrder, TradeRecord, get_leg}
use volforge.Portfolio.Pending.{execute, tradeable, fill_of, process_orders, process_pending}

-- An order that was signalled by `seen`, and is eligible `delay` after its signal.
abbrev pub Waiting : Timestamp → ℤ → PendingOrder → Type 0
Waiting seen delay o = (o.submitted_at ≤ℤ seen) × (o.eligible_at ≡ o.submitted_at +ℤ delay)

-- A trade that a view supports: it fills at the time of the view, no sooner than the delay after a
-- signal that was given by `seen`, at the price that the fill model makes of the quote in the view.
pub record Supported {F : Type 0} (m : MarketView) (fills : FillModel F) (delay : ℤ)
    (seen : Timestamp) (t : TradeRecord) : Type 0 where
  pub at_now : t.fill_ts ≡ m.now
  pub signalled : t.signal_ts ≤ℤ seen
  pub delayed : t.signal_ts +ℤ delay ≤ℤ t.fill_ts
  pub market : Quote
  pub printed : quote m t.instrument ≡ some market
  pub priced : fills.fill market t.side t.qty ≡ some t.price

unfoldable pub sum_costs : List TradeRecord → Money
sum_costs [] = pos 0
sum_costs (t ∷ ts) = t.cost +ℤ sum_costs ts

pub sum_costs-append :
    (ts us : List TradeRecord) → sum_costs (ts ++ us) ≡ sum_costs ts +ℤ sum_costs us
unfolding sum_costs
sum_costs-append [] us = omega int_laws
sum_costs-append (t ∷ ts) us = omega (int_laws, parts_of_eq (sum_costs-append ts us))

-- A portfolio that has filled orders: its trades go on with supported ones, whose costs are paid.
pub record Filled {F : Type 0} (m : MarketView) (seen : Timestamp) (p p' : Portfolio F)
    : Type 0 where
  pub fresh : List TradeRecord
  pub trades : p'.trades ≡ p.trades ++ fresh
  pub supported : All (Supported m p.fills p.delay seen) fresh
  pub total_costs : p'.total_costs ≡ p.total_costs +ℤ sum_costs fresh
  pub delay : p'.delay ≡ p.delay
  pub fills : p'.fills ≡ p.fills

-- An order that does not fill in a view: it is not eligible yet, or there is no quote, or the fill
-- model makes no price of that.
abbrev pub stays : {F : Type 0} → MarketView → FillModel F → PendingOrder → Bool
stays m fills o = if ltb_ℤ m.now o.eligible_at then true else elim (quote m o.instrument) [
  | none ↦ true
  | some q ↦ elim (fills.fill q o.side o.qty) [ none ↦ true | some _ ↦ false ]
]

module _ {F : Type 0} ⦃d : Double F⦄ (m : MarketView) (seen : Timestamp) where
  tradeable-some :
      (fills : FillModel F) (o : PendingOrder) (x : Option Quote) {q : Quote} {price : Price}
      → tradeable fills o x ≡ some (q, price)
      → (x ≡ some q) × (fills.fill q o.side o.qty ≡ some price)
  tradeable-some fills o none h = cc
  tradeable-some fills o (some q) h = elim (Option-cases (fills.fill q o.side o.qty)) [
    | inl e ↦ let gone : none ≡ some _ = rw (e, tradeable) at h in cc
    | inr (price, e) ↦
        let here : some (q, price) ≡ some _ = rw (e, tradeable) at h in
        let both = some-injective _ _ here in
        (
          ap (λ (x : Quote × Price). some x.0) both,
          subst (λ (x : Quote × Price). fills.fill x.0 o.side o.qty ≡ some x.1) both e,
        )
  ]

  -- What it takes for an order to fill.
  fill_of-some :
      (p : Portfolio F) (o : PendingOrder) {q : Quote} {price : Price}
      → fill_of m p o ≡ some (q, price)
      → (o.eligible_at ≤ℤ m.now)
        × (quote m o.instrument ≡ some q)
        × (p.fills.fill q o.side o.qty ≡ some price)
  fill_of-some p o h = elim (Bool-cases (ltb_ℤ m.now o.eligible_at)) [
    | inl e ↦ let gone : none ≡ some _ = rw e at h in cc
    | inr e ↦
        let (printed, priced) = tradeable-some p.fills o (quote m o.instrument) (rw e at h) in
        (ground arith, printed, priced)
  ]

  Filled-refl : (p : Portfolio F) → Filled m seen p p
  unfolding sum_costs
  Filled-refl p = record {
    fresh = [];
    trades = sym (append-nil p.trades);
    supported = tt;
    total_costs = omega int_laws;
    delay = refl;
    fills = refl;
  }

  Filled-trans : (p q r : Portfolio F) → Filled m seen p q → Filled m seen q r → Filled m seen p r
  Filled-trans p q r h k = record {
    fresh = h.fresh ++ k.fresh;
    trades = k.trades ∙ (ap (λ x. x ++ k.fresh) h.trades ∙ append_assoc p.trades h.fresh k.fresh);
    supported = All-append _ h.fresh k.fresh h.supported (
        subst (λ x. All (Supported m x p.delay seen) k.fresh) h.fills
          (subst (λ x. All (Supported m q.fills x seen) k.fresh) h.delay k.supported));
    total_costs = omega (
      int_laws,
      parts_of_eq k.total_costs,
      parts_of_eq h.total_costs,
      parts_of_eq (sum_costs-append h.fresh k.fresh),
    );
    delay = k.delay ∙ h.delay;
    fills = k.fills ∙ h.fills;
  }

  execute-Filled :
      (p : Portfolio F) (o : PendingOrder) (q : Quote) (price : Price)
      → Waiting seen p.delay o
      → fill_of m p o ≡ some (q, price)
      → Returns (execute m p o q price) (Filled m seen p)
  unfolding execute sum_costs
  execute-Filled p o q price (early, delayed) h =
      let (eligible, printed, priced) = fill_of-some p o h in
      Returns-then _ (spec m.registry o.instrument) _ λ s.
        Returns-then _ (or_throw (get_leg p.positions o.position o.leg_index) Error.out_of_bounds) _
          λ l. record {
            fresh = _ ∷ [];
            trades = refl;
            supported = (
              record {
                at_now = refl;
                signalled = early;
                delayed = omega (arith, parts_of_eq delayed, eligible);
                market = q;
                printed = printed;
                priced = priced;
              },
              tt,
            );
            total_costs = omega int_laws;
            delay = refl;
            fills = refl;
          }

  fill_of-none :
      (p : Portfolio F) (o : PendingOrder) → fill_of m p o ≡ none → stays m p.fills o ≡ true
  fill_of-none p o h = elim (Bool-cases (ltb_ℤ m.now o.eligible_at)) [
    | inl e ↦ rw e refl
    | inr e ↦ elim (Option-cases (quote m o.instrument)) [
      | inl e' ↦ rw (e, e') refl
      | inr (q, e') ↦ elim (Option-cases (p.fills.fill q o.side o.qty)) [
        | inl e'' ↦ rw (e, e', e'') refl
        | inr (price, e'') ↦
            let fills : some (q, price) ≡ none = rw (e, e', e'', tradeable) at h in cc
      ]
    ]
  ]

  fill_of-leaves :
      (p : Portfolio F) (o : PendingOrder) {q : Quote} {price : Price}
      → fill_of m p o ≡ some (q, price)
      → stays m p.fills o ≡ false
  fill_of-leaves p o h =
      let (eligible, printed, priced) = fill_of-some p o h in
      let ready : ltb_ℤ m.now o.eligible_at ≡ false = not_before m.now o.eligible_at eligible in
      rw (ready, printed, priced) refl
    where
      not_before : (a b : Timestamp) → b ≤ℤ a → ltb_ℤ a b ≡ false
      not_before a b k = ground arith

  process_orders-Filled :
      (p : Portfolio F) (os still : List PendingOrder)
      → All (Waiting seen p.delay) os
      → All (Waiting seen p.delay) still
      → Returns (process_orders m p os still) (λ r.
        Filled m seen p r.0
        × All (Waiting seen p.delay) r.1
        × (r.1 ≡ still ++ filter_by (stays m p.fills) os))
  unfolding process_orders
  process_orders-Filled p [] still h k = (Filled-refl p, k, sym (append-nil still))
  process_orders-Filled p (o ∷ os) still (h, hs) k = elim (Option-cases (fill_of m p o)) [
    | inl e ↦
        rw (e, process_orders, fill_of-none p o e)
          (Returns-map _ _ (process_orders m p os (still ++ (o ∷ [])))
            (λ r (f, w, kept).
              (f, w, kept ∙ append_assoc still (o ∷ []) (filter_by (stays m p.fills) os)))
            (process_orders-Filled p os (still ++ (o ∷ [])) hs
              (All-append _ still (o ∷ []) k (h, tt))))
    | inr ((q, price), e) ↦
        rw (e, process_orders, fill_of-leaves p o e)
          (Returns-bind _ _ (execute m p o q price) _ (execute-Filled p o q price h e) λ p' g.
            Returns-map _ _ (process_orders m p' os still)
              (λ r (f, w, kept). (
                Filled-trans p p' r.0 g f,
                subst (λ x. All (Waiting seen x) r.1) g.delay w,
                kept ∙ ap (λ x. still ++ filter_by (stays m x) os) g.fills,
              ))
              (process_orders-Filled p' os still
                (subst (λ x. All (Waiting seen x) os) (sym g.delay) hs)
                (subst (λ x. All (Waiting seen x) still) (sym g.delay) k)))
  ]

  -- If every order at work was signalled by `seen` and waits for its delay, then `process_pending`
  -- adds only trades that the view supports, pays the costs of just those, and keeps at work, in
  -- their order, exactly the orders that are not eligible yet, have no quote or get no price; these
  -- are still waiting.
  pub process_pending-Filled :
      (p : Portfolio F)
      → All (Waiting seen p.delay) p.pending
      → Returns (process_pending m p) (λ p'.
        Filled m seen p p'
        × All (Waiting seen p.delay) p'.pending
        × (p'.pending ≡ filter_by (stays m p.fills) p.pending))
  unfolding process_pending
  process_pending-Filled p h =
      Returns-bind _ _ (process_orders m p p.pending []) _
        (process_orders-Filled p p.pending [] h tt)
        λ r (f, w, kept). (
          record {
            fresh = f.fresh;
            trades = f.trades;
            supported = f.supported;
            total_costs = f.total_costs;
            delay = f.delay;
            fills = f.fills;
          },
          w,
          kept,
        )
