-- ===== src/Strategy.antt =====
-- What strategy code can do to a portfolio: the order handlers of `Ctx` and the position handles of
-- cpp/core/include/volforge/strategy.hpp and cpp/core/src/strategy.cpp. A strategy is the caller's
-- coroutine, and a parameter: between two suspensions it is a script of commands.
pub mod Frame
pub mod Ledger
pub mod Chain
pub mod Selection
pub mod Pairs
pub mod Deltas
pub mod Search
pub mod Recovery
pub mod Forward
pub mod Context
pub mod Schedule
use Prim.Native.String.{String}
use volforge.Prelude.{
  ℕ, Bool, not, Option, List, [], ◌∷◌, ℤ, pos, ◌*ℤ◌, leb_ℤ, eqb_ℤ, Error, Result, ok, err, ◌>>=◌,
  ◌>>◌, throw_if,
}
use volforge.Types.{Timestamp, Qty, InstrumentId}
use volforge.Instrument.{InstrumentRegistry, spec}
use volforge.Market.{MarketView}
use volforge.Costs.{Side}
use volforge.Double.{Double}
use volforge.Portfolio.{Portfolio}
use volforge.Portfolio.Submit.{submit_open, submit_close, submit_close_leg}
use volforge.Portfolio.Rules.{attach_stop_loss, attach_take_profit, attach_exit_at}

-- The loop of `contracts_for`.
unfoldable pub same_lots : InstrumentRegistry → Qty → List InstrumentId → Result (Unit {0})
same_lots r lot [] = ok tt
same_lots r lot (id ∷ ids) = do
  s ← spec r id
  throw_if (not (eqb_ℤ s.lot_size lot)) Error.invalid_argument
  same_lots r lot ids

unfoldable pub contracts_for : InstrumentRegistry → List InstrumentId → ℤ → Result Qty
contracts_for r [] lots = err Error.invalid_argument
contracts_for r (id ∷ ids) lots = do
  throw_if (leb_ℤ lots (pos 0)) Error.invalid_argument
  s ← spec r id
  same_lots r s.lot_size (id ∷ ids)
  ok (s.lot_size *ℤ lots)

pub data Command (F : Type 0) : Type 0 where
  order : Side → List InstrumentId → ℤ → String → Command F
  close_position : ℕ → Command F
  close_leg : ℕ → ℕ → Command F
  stop_loss : ℕ → Option ℕ → F → Command F
  take_profit : ℕ → Option ℕ → F → Command F
  exit_at : ℕ → Option ℕ → Timestamp → Command F

-- The code between two suspensions. `acts` goes on with the portfolio that the command left.
pub data Script (F S : Type 0) : Type 0 where
  suspends : S → Script F S
  throws : Error → Script F S
  acts : Command F → (Portfolio F → Script F S) → Script F S

-- The coroutine bound to a session: `done`, `pending().valid()`, `pending().eval` and `resume` of
-- `StrategyTask`. What it reads of the session besides the view, as the series of `Ctx::bars`, is
-- bound with it: a coroutine is a function from sessions to strategies.
pub record Strategy (F S : Type 0) : Type 0 where
  pub start : S
  pub done : S → Bool
  pub waits : S → Bool
  pub holds : S → MarketView → Portfolio F → Result Bool
  pub resume : S → MarketView → Portfolio F → Script F S

module _ {F : Type 0} ⦃d : Double F⦄ where
  -- `Ctx::sell` and `Ctx::buy`: no legs, no order.
  unfoldable pub place :
      MarketView → Portfolio F → Side → List InstrumentId → ℤ → String → Result (Portfolio F)
  place m p side [] lots label = ok p
  place m p side (id ∷ ids) lots label = do
    qty ← contracts_for m.registry (id ∷ ids) lots
    (p', at_id) ← submit_open p label (id ∷ ids) side qty m.now
    ok p'

  unfoldable pub apply : MarketView → Portfolio F → Command F → Result (Portfolio F)
  apply m p (order side legs lots label) = place m p side legs lots label
  apply m p (close_position id) = submit_close p id m.now
  apply m p (close_leg id j) = submit_close_leg p id j m.now
  apply m p (stop_loss id leg pct) = attach_stop_loss p id leg pct
  apply m p (take_profit id leg pct) = attach_take_profit p id leg pct
  apply m p (exit_at id leg when) = attach_exit_at p id leg when

  unfoldable pub run_script :
      {S : Type 0} → MarketView → Portfolio F → Script F S → Result (Portfolio F × S)
  run_script m p (suspends s) = ok (p, s)
  run_script m p (throws e) = err e
  run_script m p (acts c k) = apply m p c >>= λ p'. run_script m p' (k p')
