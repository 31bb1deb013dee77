-- ===== src/Portfolio/RuleFrame.antt =====
-- The risk rules leave the trades and the money alone, whatever they decide.
use volforge.Prelude.{
  ℕ, ◌+◌, refl, Bool, true, false, Option, none, some, List, [], ◌∷◌, if◌then◌else◌, pos, Error, ok,
  ◌>>=◌, throw_if, Returns, Returns-bind, Returns-then,
}
use volforge.Types.{Timestamp}
use volforge.Market.{MarketView}
use volforge.Double.{Double}
use volforge.Portfolio.{Portfolio, Position, PendingOrder, RiskRule, at}
use volforge.Portfolio.Rules.{
  attach, attach_stop_loss, attach_take_profit, attach_exit_at, fire, close_target, decided, behind,
  Gate, spent, waits, armed, gate, triggers, process_rule, process_rules, process_risk_rules,
}
use volforge.Portfolio.Frame.{
  Kept, IsFresh, Kept-refl, Kept-trans, Kept-bind, submit_close-Kept, submit_close_leg-Kept,
}

module _ {F : Type 0} ⦃d : Double F⦄ (Q : PendingOrder → Type 0) where
  attach-Kept :
      (now : Timestamp) (p : Portfolio F) (r : RiskRule F) → Returns (attach p r) (Kept now Q p)
  attach-Kept now p r = Returns-then _ (at p (pos r.position)) _ λ held. record {
    trades = refl;
    realized = refl;
    total_costs = refl;
    delay = refl;
    fills = refl;
    costs = refl;
    pending = λ h. h;
  }

  pub attach_stop_loss-Kept :
      (now : Timestamp) (p : Portfolio F) (id : ℕ) (leg : Option ℕ) (pct : F)
      → Returns (attach_stop_loss p id leg pct) (Kept now Q p)
  unfolding attach_stop_loss
  attach_stop_loss-Kept now p id leg pct =
      Returns-then _ (throw_if (d.le pct (d.literal 0 0)) Error.invalid_argument) _
        λ _. attach-Kept now p _

  pub attach_take_profit-Kept :
      (now : Timestamp) (p : Portfolio F) (id : ℕ) (leg : Option ℕ) (pct : F)
      → Returns (attach_take_profit p id leg pct) (Kept now Q p)
  unfolding attach_take_profit
  attach_take_profit-Kept now p id leg pct =
      Returns-then _ (throw_if (d.le pct (d.literal 0 0)) Error.invalid_argument) _
        λ _. attach-Kept now p _

  pub attach_exit_at-Kept :
      (now : Timestamp) (p : Portfolio F) (id : ℕ) (leg : Option ℕ) (when : Timestamp)
      → Returns (attach_exit_at p id leg when) (Kept now Q p)
  unfolding attach_exit_at
  attach_exit_at-Kept now p id leg when = attach-Kept now p _

  close_target-Kept :
      (now : Timestamp) (p : Portfolio F) (r : RiskRule F) (leg : Option ℕ)
      → IsFresh now Q p
      → Returns (close_target p r leg now) (Kept now Q p)
  close_target-Kept now p r none fresh = submit_close-Kept now Q p r.position fresh
  close_target-Kept now p r (some j) fresh = submit_close_leg-Kept now Q p fresh r.position j

  -- Whether an exit comes from a rule, and how many rules have fired, is no matter.
  retag :
      (now : Timestamp) (p : Portfolio F) (b : Bool) (n : ℕ)
      → Kept now Q p (record p { closing_from_rule = b; rules_fired = n })
  retag now p b n = record {
    trades = refl;
    realized = refl;
    total_costs = refl;
    delay = refl;
    fills = refl;
    costs = refl;
    pending = λ h. h;
  }

  module _ (m : MarketView) where
    fire-Kept :
        (p : Portfolio F) (r : RiskRule F)
        → IsFresh m.now Q p
        → Returns (fire m p r) (Kept m.now Q p)
    unfolding fire
    fire-Kept p r fresh =
        let p' : Portfolio F = record p {
          closing_from_rule = true;
          rules_fired = p.rules_fired + 1;
        } in
        Returns-bind _ _ (close_target p' r r.leg m.now) _
          (close_target-Kept m.now p' r r.leg fresh)
          λ q k.
            Kept-trans m.now Q p p' (record q { closing_from_rule = false })
              (retag m.now p true (p.rules_fired + 1))
              (Kept-trans m.now Q p' q (record q { closing_from_rule = false }) k
                (retag m.now q false q.rules_fired))

    decided-Kept :
        (p : Portfolio F) (r : RiskRule F) (trigger : Bool)
        → IsFresh m.now Q p
        → Returns (decided m p r trigger) (λ s. Kept m.now Q p s.0)
    decided-Kept p r false fresh = Kept-refl m.now Q p
    decided-Kept p r true fresh = Returns-bind _ _ (fire m p r) _ (fire-Kept p r fresh) λ p' k. k

    behind-Kept :
        (p : Portfolio F) (q : Position) (r : RiskRule F) (g : Gate)
        → IsFresh m.now Q p
        → Returns (behind m p q r g) (λ s. Kept m.now Q p s.0)
    behind-Kept p q r spent fresh = Kept-refl m.now Q p
    behind-Kept p q r waits fresh = Kept-refl m.now Q p
    behind-Kept p q r armed fresh =
        Returns-then _ (triggers m q r r.kind) _ λ t. decided-Kept p r t fresh

    process_rule-Kept :
        (p : Portfolio F) (r : RiskRule F)
        → IsFresh m.now Q p
        → Returns (process_rule m p r) (λ s. Kept m.now Q p s.0)
    unfolding process_rule
    process_rule-Kept p r fresh =
        elim r.fired
          as (λ b.
            Returns
              (if b
                then ok (p, r)
                else (at p (pos r.position) >>= λ q. behind m p q r (gate q r.leg)))
              (λ s. Kept m.now Q p s.0)) [
                | true ↦ Kept-refl m.now Q p
                | false ↦
                    Returns-then _ (at p (pos r.position)) _
                      λ q. behind-Kept p q r (gate q r.leg) fresh
              ]

    process_rules-Kept :
        (rs : List (RiskRule F)) (p : Portfolio F)
        → IsFresh m.now Q p
        → Returns (process_rules m p rs) (λ s. Kept m.now Q p s.0)
    unfolding process_rules
    process_rules-Kept [] p fresh = Kept-refl m.now Q p
    process_rules-Kept (r ∷ rs) p fresh =
        Kept-bind m.now Q (λ s. s.0) (λ s. s.0) p (process_rule m p r) _ fresh
          (process_rule-Kept p r fresh)
          λ s fresh'.
            Returns-bind _ _ (process_rules m s.0 rs) _ (process_rules-Kept rs s.0 fresh') λ t k. k

    pub process_risk_rules-Kept :
        (p : Portfolio F) → IsFresh m.now Q p → Returns (process_risk_rules m p) (Kept m.now Q p)
    unfolding process_risk_rules
    process_risk_rules-Kept p fresh =
        Returns-bind _ _ (process_rules m p p.rules) _ (process_rules-Kept p.rules p fresh) λ s k.
          record {
            trades = k.trades;
            realized = k.realized;
            total_costs = k.total_costs;
            delay = k.delay;
            fills = k.fills;
            costs = k.costs;
            pending = k.pending;
          }
