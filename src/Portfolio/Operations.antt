-- ===== src/Portfolio/Operations.antt =====
-- The other operations that move orders keep the ledger: `cancel_working_orders`, the risk rules and
-- the carried marks.
use volforge.Prelude.{
  ℕ, zero, suc, ◌+◌, ◌≡◌, refl, sym, ap, ◌∙◌, Bool, true, false, not, Option, none, some, List, [],
  ◌∷◌, map, arith, if◌then◌else◌, get_elem?, All-map, pos, ◌+ℤ◌, int_laws, parts_of_eq, ok, ◌>>=◌,
  Safe, Safe-bind,
}
use volforge.Types.{Timestamp, Money}
use volforge.Market.{MarketView, Quote, quote}
use volforge.Double.{Double}
use volforge.Portfolio.{
  Portfolio, Leg, Position, PendingOrder, RiskRule, RuleKind, stop_loss_pct, take_profit_pct,
  exit_at, at, get_leg, set_leg, live, live,
}
use volforge.Portfolio.Legs.{booked, sum_booked, booked_total}
use volforge.Portfolio.Positions.{pnl_pct_of}
use volforge.Portfolio.Submit.{abandon, abandoned, rearm, rearm_one, cancel_working_orders}
use mathlib.Core.Path.{ap₂}
use volforge.Portfolio.Marks.{marked, refresh_leg, fresh_mark, refresh_position, refresh_marks}
use volforge.Portfolio.Rules.{
  process_rule, process_rules, process_risk_rules, fire, gate, triggers, rule_pnl, close_target,
  spent, waits, armed, Gate, decided, behind,
}
use volforge.Portfolio.Matching.{Matches, Ledger, Ledger-step, middle_leg, awaited}
use volforge.Portfolio.Accounting.{Balanced}
use volforge.Portfolio.Closing.{at-Safe, submit_close-Balanced}

abandoned-booked :
    (o : PendingOrder) (l : Leg) → l.state ≡ awaited o → booked (abandoned o l) ≡ pos 0
abandoned-booked o l h = ground arith

abandon-Ledger :
    (r : Money) (os : List PendingOrder) (ps : List Position)
    → Ledger r ps os
    → Safe (abandon ps os) (λ s. Ledger r s.0 [])
unfolding abandon
abandon-Ledger r [] ps g = g
abandon-Ledger r (o ∷ os) ps g =
    let w = middle_leg r ps o [] os g in
    let v = abandoned o w.leg in
    let earned = abandoned-booked o w.leg w.waits in
    rw w.found (
      Safe-bind _ _ (abandon (set_leg ps o.position o.leg_index v) os) _
        (abandon-Ledger r os (set_leg ps o.position o.leg_index v)
          (Ledger-step r r ps o [] os w.leg v g w.found (omega (int_laws, parts_of_eq earned))))
        λ s h. h)

module _ {F : Type 0} where
  rearm_one-Safe :
      (ps : List Position) (exits : List ℕ) (r : RiskRule F)
      → Safe (rearm_one ps exits r) (λ _. Unit {0})
  unfolding rearm_one
  rearm_one-Safe ps exits r = ground arith

  rearm-Safe :
      (ps : List Position) (exits : List ℕ) (rs : List (RiskRule F))
      → Safe (rearm ps exits rs) (λ _. Unit {0})
  unfolding rearm
  rearm-Safe ps exits [] = tt
  rearm-Safe ps exits (r ∷ rs) =
      Safe-bind _ _ (rearm_one ps exits r) _ (rearm_one-Safe ps exits r)
        λ r' _. Safe-bind _ _ (rearm ps exits rs) _ (rearm-Safe ps exits rs) λ rs' _. tt

  -- At the end of a session no order is left, and a balanced portfolio stays balanced.
  pub cancel_working_orders-Balanced :
      (p : Portfolio F)
      → Balanced p
      → Safe (cancel_working_orders p) (λ r. Balanced r.0 × ((r.0).pending ≡ []))
  unfolding cancel_working_orders
  cancel_working_orders-Balanced p g =
      Safe-bind _ _ (abandon p.positions p.pending) _
        (abandon-Ledger p.realized p.pending p.positions g)
        λ s h.
          Safe-bind _ _ (rearm s.0 s.1 p.rules) _ (rearm-Safe s.0 s.1 p.rules) λ rules _. (h, refl)

rule_pnl-Safe :
    (F : Type 0) ⦃d : Double F⦄ (m : MarketView) (q : Position) (leg : Option ℕ)
    → Safe {A = F} (rule_pnl m q leg) (λ _. Unit {0})
unfolding pnl_pct_of
rule_pnl-Safe F m q none = tt
rule_pnl-Safe F m q (some j) = ground arith

module _ {F : Type 0} ⦃d : Double F⦄ where
  close_target-Balanced :
      (p : Portfolio F) (r : RiskRule F) (leg : Option ℕ) (now : Timestamp)
      → Balanced p
      → Safe (close_target p r leg now) Balanced
  close_target-Balanced p r none now g = (submit_close-Balanced p r.position 0 now g).1
  close_target-Balanced p r (some j) now g = (submit_close-Balanced p r.position j now g).0

  fire-Balanced :
      (m : MarketView) (p : Portfolio F) (r : RiskRule F) → Balanced p → Safe (fire m p r) Balanced
  unfolding fire
  fire-Balanced m p r g =
      let p' : Portfolio F = record p {
        closing_from_rule = true;
        rules_fired = p.rules_fired + 1;
      } in
      Safe-bind _ _ (close_target p' r r.leg m.now) _ (close_target-Balanced p' r r.leg m.now g)
        λ q h. h

  triggers-Safe :
      (m : MarketView) (q : Position) (r : RiskRule F) (k : RuleKind)
      → Safe (triggers m q r k) (λ _. Unit {0})
  triggers-Safe m q r stop_loss_pct =
      Safe-bind _ _ (rule_pnl m q r.leg) _ (rule_pnl-Safe F m q r.leg) λ x _. tt
  triggers-Safe m q r take_profit_pct =
      Safe-bind _ _ (rule_pnl m q r.leg) _ (rule_pnl-Safe F m q r.leg) λ x _. tt
  triggers-Safe m q r exit_at = tt

  decided-Balanced :
      (m : MarketView) (p : Portfolio F) (r : RiskRule F) (trigger : Bool)
      → Balanced p
      → Safe (decided m p r trigger) (λ s. Balanced s.0)
  decided-Balanced m p r false g = g
  decided-Balanced m p r true g = Safe-bind _ _ (fire m p r) _ (fire-Balanced m p r g) λ p' h. h

  behind-Balanced :
      (m : MarketView) (p : Portfolio F) (q : Position) (r : RiskRule F) (x : Gate)
      → Balanced p
      → Safe (behind m p q r x) (λ s. Balanced s.0)
  behind-Balanced m p q r spent g = g
  behind-Balanced m p q r waits g = g
  behind-Balanced m p q r armed g =
      Safe-bind _ _ (triggers m q r r.kind) _ (triggers-Safe m q r r.kind)
        λ t _. decided-Balanced m p r t g

  process_rule-Balanced :
      (m : MarketView) (p : Portfolio F) (r : RiskRule F)
      → Balanced p
      → Safe (process_rule m p r) (λ s. Balanced s.0)
  unfolding process_rule
  process_rule-Balanced m p r g =
      elim r.fired
        as (λ b.
          Safe
            (if b
              then ok (p, r)
              else (at p (pos r.position) >>= λ q. behind m p q r (gate q r.leg)))
            (λ s. Balanced s.0)) [
              | true ↦ g
              | false ↦
                  Safe-bind _ _ (at p (pos r.position)) _ (at-Safe p r.position)
                    λ q _. behind-Balanced m p q r (gate q r.leg) g
            ]

  process_rules-Balanced :
      (m : MarketView) (rs : List (RiskRule F)) (p : Portfolio F)
      → Balanced p
      → Safe (process_rules m p rs) (λ s. Balanced s.0)
  unfolding process_rules
  process_rules-Balanced m [] p g = g
  process_rules-Balanced m (r ∷ rs) p g =
      Safe-bind _ _ (process_rule m p r) _ (process_rule-Balanced m p r g)
        λ s h. Safe-bind _ _ (process_rules m s.0 rs) _ (process_rules-Balanced m rs s.0 h) λ t k. k

  -- Whatever the rules decide, they leave a balanced portfolio balanced, and touch no leg that is
  -- not there.
  pub process_risk_rules-Balanced :
      (m : MarketView) (p : Portfolio F) → Balanced p → Safe (process_risk_rules m p) Balanced
  unfolding process_risk_rules
  process_risk_rules-Balanced m p g =
      Safe-bind _ _ (process_rules m p p.rules) _ (process_rules-Balanced m p.rules p g) λ s h. h

-- A fresh mark changes nothing that the ledger reads.
marked_lem :
    (m : MarketView) (l : Leg) (o : Option Quote)
    → ((marked m l o).state ≡ l.state)
      × ((marked m l o).instrument ≡ l.instrument)
      × (booked (marked m l o) ≡ booked l)
marked_lem m l none = (refl, refl, refl)
marked_lem m l (some q) =
    elim (fresh_mark l q)
      as (λ x.
        let v : Leg = elim x [
          | none ↦ l
          | some price ↦ record l { last_mark = price; last_mark_ts = m.now }
        ] in
        (v.state ≡ l.state) × (v.instrument ≡ l.instrument) × (booked v ≡ booked l)) [
          | none ↦ (refl, refl, refl)
          | some price ↦ (refl, refl, refl)
        ]

refresh_leg_lem :
    (m : MarketView) (l : Leg)
    → ((refresh_leg m l).state ≡ l.state)
      × ((refresh_leg m l).instrument ≡ l.instrument)
      × (booked (refresh_leg m l) ≡ booked l)
unfolding refresh_leg
refresh_leg_lem m l =
    elim (not (live l))
      as (λ b.
        let v : Leg = if b then l else marked m l (quote m l.instrument) in
        (v.state ≡ l.state) × (v.instrument ≡ l.instrument) × (booked v ≡ booked l)) [
          | true ↦ (refl, refl, refl)
          | false ↦ marked_lem m l (quote m l.instrument)
        ]

get_elem?-map :
    {A B : Type 0} (f : A → B) (xs : List A) (i : ℕ) (a : A)
    → get_elem? xs i ≡ some a
    → get_elem? (map f xs) i ≡ some (f a)
get_elem?-map f [] i a h = cc
get_elem?-map f (x ∷ xs) zero a h =
    ap {B = Option _} (λ o. elim o [ none ↦ none | some y ↦ some (f y) ]) h
get_elem?-map f (x ∷ xs) (suc i) a h = get_elem?-map f xs i a h

get_leg-refresh :
    (m : MarketView) (ps : List Position) (i j : ℕ) (l : Leg)
    → get_leg ps i j ≡ some l
    → get_leg (map (refresh_position m) ps) i j ≡ some (refresh_leg m l)
unfolding get_leg refresh_position
get_leg-refresh m [] i j l h = cc
get_leg-refresh m (p ∷ ps) zero j l h = get_elem?-map (refresh_leg m) p.legs j l h
get_leg-refresh m (p ∷ ps) (suc i) j l h = get_leg-refresh m ps i j l h

refresh-Matches :
    (m : MarketView) (ps : List Position) (o : PendingOrder)
    → Matches ps o
    → Matches (map (refresh_position m) ps) o
refresh-Matches m ps o w =
    let (state, instrument, _) = refresh_leg_lem m w.leg in
    record {
      leg = refresh_leg m w.leg;
      found = get_leg-refresh m ps o.position o.leg_index w.leg w.found;
      waits = state ∙ w.waits;
      same = instrument ∙ w.same;
    }

sum_booked-refresh :
    (m : MarketView) (ls : List Leg) → sum_booked (map (refresh_leg m) ls) ≡ sum_booked ls
unfolding sum_booked
sum_booked-refresh m [] = refl
sum_booked-refresh m (l ∷ ls) = ap₂ ◌+ℤ◌ (refresh_leg_lem m l).2 (sum_booked-refresh m ls)

booked_total-refresh :
    (m : MarketView) (ps : List Position)
    → booked_total (map (refresh_position m) ps) ≡ booked_total ps
unfolding booked_total refresh_position
booked_total-refresh m [] = refl
booked_total-refresh m (p ∷ ps) = ap₂ ◌+ℤ◌ (sum_booked-refresh m p.legs) (booked_total-refresh m ps)

-- Refreshing the marks keeps a balanced portfolio balanced.
pub refresh_marks-Balanced :
    {F : Type 0} (m : MarketView) (p : Portfolio F) → Balanced p → Balanced (refresh_marks m p)
unfolding refresh_marks
refresh_marks-Balanced m p g = record {
  booked_all = g.booked_all ∙ sym (booked_total-refresh m p.positions);
  matched = All-map _ _ (refresh-Matches m p.positions) p.pending g.matched;
  distinct = g.distinct;
}
