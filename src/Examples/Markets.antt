-- ===== src/Examples/Markets.antt =====
-- Registries, views and merges of the example's day.
use volforge.Instrument.{find_name}
use volforge.Prelude.{
  ◌≡◌, refl, some, List, [], ◌∷◌, arith, if◌then◌else◌, pos, pos_part, ltb_ℤ, Error, ok, err, ◌>>=◌,
}
use volforge.Types.{call, Date}
use volforge.Instrument.{spec, add, find_option, find_key, key_of, intern_underlying, expiries}
use volforge.Instrument.Laws.{IsValid, add-IsValid, add-Answers, Answers, find_option_registered}
use volforge.Instrument.Expiries.{IsAscending, contains, any, is_listed, expiries_lem}
use volforge.Bars.{build, completed, last_price}
use volforge.Bars.Causality.{completed-until}
use volforge.Examples.{day}
use volforge.Market.{view_of, quote_at}
use volforge.Market.Causality.{until, from_end, quote_at-until}
use volforge.Market.Cursor.{Run, steps_of}
use volforge.Lookahead.{truncated}
use volforge.Lookahead.Views.{truncated-quotes, view_of-truncated}
use volforge.Lookahead.Runs.{until_times}
use volforge.Lookahead.Timeline.{steps_of-truncated}
use volforge.Examples.{session, session-IsValid, registry, no_instruments, nifty_call}
use volforge.Examples.Runs.{session-IsIndexed}

no_instruments-IsValid : IsValid (intern_underlying no_instruments "NIFTY").0
unfolding intern_underlying find_key find_name
no_instruments-IsValid = record { mapped = λ k i h. cc; listed = λ i s h. cc }

pub registry-IsValid : IsValid registry
registry-IsValid =
    add-IsValid (intern_underlying no_instruments "NIFTY").0 nifty_call no_instruments-IsValid

add-Answers_example : Answers registry nifty_call (add registry nifty_call)
add-Answers_example = add-Answers registry nifty_call registry-IsValid

registered : spec registry (pos 0) ≡ ok (record nifty_call { id = pos 0 })
unfolding spec add find_key key_of intern_underlying find_name
registered = refl

find_option_registered_example :
    find_option registry (pos 0) (pos 20240125) (pos 2150000) call ≡ some (pos 0)
find_option_registered_example =
    find_option_registered registry (pos 0) (record nifty_call { id = pos 0 }) registry-IsValid refl
      registered

quote_at-until_example : quote_at (view_of session (pos 25)) (pos 0) (pos 1) ≡ (
    if ltb_ℤ (pos 1) (pos 0)
    then err Error.invalid_argument
    else ok (from_end (until (pos 25) (session.quotes (pos 0))) (pos_part (pos 1))))
quote_at-until_example =
    quote_at-until session (pos 25) (pos 0) (pos 1) session-IsValid.low
      (session-IsValid.sorted (pos 0))

truncated-quotes_example :
    (truncated session (pos 25)).quotes (pos 0) ≡ until (pos 25) (session.quotes (pos 0))
truncated-quotes_example = truncated-quotes session (pos 25) (pos 0) session-IsValid

view_of-truncated_example : view_of (truncated session (pos 25)) (pos 22) ≡ view_of session (pos 22)
view_of-truncated_example =
    view_of-truncated session (pos 25) (pos 22) session-IsValid (omega arith)

abbrev two_runs : List Run
two_runs =
    record { instrument = pos 1; row = 0; ts = pos 5; rest = pos 9 ∷ pos 12 ∷ [] }
    ∷ record { instrument = pos 0; row = 0; ts = pos 5; rest = pos 7 ∷ [] }
    ∷ []

steps_of-truncated_example :
    steps_of (truncated session (pos 25)) ≡ until_times (pos 25) (steps_of session)
steps_of-truncated_example = steps_of-truncated session (pos 25) session-IsValid session-IsIndexed

expiries_lem_example :
    IsAscending (pos 0) (expiries registry (pos 0))
    × ((x : Date)
        → contains x (expiries registry (pos 0)) ≡ any (is_listed (pos 0) x) registry.specs)
expiries_lem_example = expiries_lem registry (pos 0)

completed-until_example :
    (build day (pos 10) (pos 5) last_price (pos 0) >>= λ s. completed s (pos 27) (pos 0)) ≡ (
      build (until (pos 27) day) (pos 10) (pos 5) last_price (pos 0) >>= λ s.
      completed s (pos 27) (pos 0))
completed-until_example =
    completed-until day (pos 10) (pos 5) last_price (pos 0) (pos 27) (pos 0) session-IsValid.low
      (session-IsValid.sorted (pos 0))
