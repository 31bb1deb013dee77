-- ===== src/Portfolio/Rules.antt =====
-- Attached risk rules: `attach_stop_loss`, `attach_take_profit`, `attach_exit_at` and
-- `process_risk_rules` of `Portfolio`.
use volforge.Prelude.{
  ℕ, ◌+◌, Bool, true, false, not, Option, none, some, List, [], ◌∷◌, ◌++◌, if◌then◌else◌, get_elem?,
  pos, leb_ℤ, Error, Result, ok, ◌>>=◌, ◌>>◌, throw_if,
}
use volforge.Types.{Timestamp}
use volforge.Market.{MarketView}
use volforge.Double.{Double}
use volforge.Portfolio.{
  Portfolio, Position, Leg, RiskRule, RuleKind, stop_loss_pct, take_profit_pct, exit_at, at,
  state_open,
}
use volforge.Portfolio.Positions.{established, is_open, pnl_pct, pnl_pct_of}
use volforge.Portfolio.Submit.{submit_close, submit_close_leg}

-- What the guards of the loop decide before the trigger is evaluated.
pub data Gate : Type 0 where
  spent waits armed : Gate

leg_gate : Option Leg → Gate
leg_gate none = spent
leg_gate (some l) = if state_open l.state then armed else waits

unfoldable pub gate : Position → Option ℕ → Gate
unfolding leg_gate
gate p leg = if not (is_open p) then spent else elim leg [
  | none ↦ if established p then armed else waits
  | some j ↦ leg_gate (get_elem? p.legs j)
]

module _ {F : Type 0} ⦃d : Double F⦄ where
  abbrev pub new_rule : RuleKind → ℕ → Option ℕ → F → Timestamp → RiskRule F
  new_rule kind id leg threshold deadline = record {
    kind = kind;
    position = id;
    leg = leg;
    threshold = threshold;
    deadline = deadline;
    fired = false;
  }

  abbrev pub attach : Portfolio F → RiskRule F → Result (Portfolio F)
  attach p r = do held ← at p (pos r.position); ok (record p { rules = p.rules ++ (r ∷ []) })

  unfoldable pub attach_stop_loss : Portfolio F → ℕ → Option ℕ → F → Result (Portfolio F)
  attach_stop_loss p id leg pct = do
    throw_if (d.le pct (d.literal 0 0)) Error.invalid_argument
    attach p (new_rule stop_loss_pct id leg pct (pos 0))

  unfoldable pub attach_take_profit : Portfolio F → ℕ → Option ℕ → F → Result (Portfolio F)
  attach_take_profit p id leg pct = do
    throw_if (d.le pct (d.literal 0 0)) Error.invalid_argument
    attach p (new_rule take_profit_pct id leg pct (pos 0))

  unfoldable pub attach_exit_at : Portfolio F → ℕ → Option ℕ → Timestamp → Result (Portfolio F)
  attach_exit_at p id leg when = attach p (new_rule exit_at id leg (d.literal 0 0) when)

  abbrev pub rule_pnl : MarketView → Position → Option ℕ → Result F
  rule_pnl m p none = ok (pnl_pct p m)
  rule_pnl m p (some j) = pnl_pct_of p j m

  abbrev pub triggers : MarketView → Position → RiskRule F → RuleKind → Result Bool
  triggers m p r stop_loss_pct = do x ← rule_pnl m p r.leg; ok (d.le x (d.minus r.threshold))
  triggers m p r take_profit_pct = do x ← rule_pnl m p r.leg; ok (d.le r.threshold x)
  triggers m p r exit_at = ok (leb_ℤ r.deadline m.now)

  abbrev pub close_target : Portfolio F → RiskRule F → Option ℕ → Timestamp → Result (Portfolio F)
  close_target p r none now = submit_close p r.position now
  close_target p r (some j) now = submit_close_leg p r.position j now

  -- A rule that triggers: `closing_from_rule_` holds for just the orders of this exit.
  unfoldable pub fire : MarketView → Portfolio F → RiskRule F → Result (Portfolio F)
  fire m p r = do
    p' ←
        close_target (record p { closing_from_rule = true; rules_fired = p.rules_fired + 1 }) r
          r.leg m.now
    ok (record p' { closing_from_rule = false })

  -- A rule that holds its fire, or is carried out.
  abbrev pub decided :
      MarketView → Portfolio F → RiskRule F → Bool → Result (Portfolio F × RiskRule F)
  decided m p r false = ok (p, r)
  decided m p r true = fire m p r >>= λ p'. ok (p', record r { fired = true })

  abbrev pub behind :
      MarketView → Portfolio F → Position → RiskRule F → Gate → Result (Portfolio F × RiskRule F)
  behind m p q r spent = ok (p, record r { fired = true })
  behind m p q r waits = ok (p, r)
  behind m p q r armed = triggers m q r r.kind >>= decided m p r

  -- The body of the loop.
  unfoldable pub process_rule :
      MarketView → Portfolio F → RiskRule F → Result (Portfolio F × RiskRule F)
  process_rule m p r =
      if r.fired then ok (p, r) else at p (pos r.position) >>= λ q. behind m p q r (gate q r.leg)

  unfoldable pub process_rules :
      MarketView → Portfolio F → List (RiskRule F) → Result (Portfolio F × List (RiskRule F))
  process_rules m p [] = ok (p, [])
  process_rules m p (r ∷ rs) = do
    (p', r') ← process_rule m p r
    (p'', rs') ← process_rules m p' rs
    ok (p'', r' ∷ rs')

  unfoldable pub process_risk_rules : MarketView → Portfolio F → Result (Portfolio F)
  process_risk_rules m p = do
    (p', rules) ← process_rules m p p.rules
    ok (record p' { rules = rules })
