-- ===== src/Lookahead/SessionBars.antt =====
-- The bars that a context hands out, `Ctx::bars`, are built from the whole session; what they answer
-- at a time is the same on the session as truncated at that time or later.
use volforge.Prelude.{
  ◌*◌, ◌≡◌, refl, sym, ap, ◌∙◌, true, false, ℤ, pos, ◌+ℤ◌, ◌*ℤ◌, ◌≤ℤ◌, leb_ℤ, Error, Result, ◌>>=◌,
  throw_if,
}
use volforge.Types.{Timestamp, InstrumentId, seconds_nanos}
use volforge.Market.{SessionData, QuoteColumns}
use volforge.Market.Causality.{until}
use volforge.Bars.{BarPrice, build, completed}
use volforge.Bars.Causality.{completed-until}
use volforge.Strategy.Context.{session_bars}
use volforge.Lookahead.{truncated}
use volforge.Lookahead.Views.{IsValid, until-until, until-IsSorted, truncated-quotes}

-- Which bar of a series of `Ctx::bars` has completed at a time is the same, errors included, for the
-- session and for the session as truncated at that time or later, at any offset into the past. The
-- series of the session are sorted, and those that it does not list are empty.
pub session_bars-truncated :
    (s : SessionData) (cutoff anchor : Timestamp) (id : InstrumentId) (interval_seconds : ℤ)
    (source : BarPrice) (now : Timestamp) (back : ℤ)
    → IsValid s
    → now ≤ℤ cutoff
    → (session_bars (truncated s cutoff) anchor id interval_seconds source >>= λ b.
        completed b now back)
      ≡ (session_bars s anchor id interval_seconds source >>= λ b. completed b now back)
unfolding session_bars
session_bars-truncated s cutoff anchor id interval_seconds source now back v h =
    let valid_until = anchor +ℤ pos (24 * 3600) *ℤ seconds_nanos in
    let nanos = interval_seconds *ℤ seconds_nanos in
    let cut = until cutoff (s.quotes id) in
    let answers : QuoteColumns → Result _ = λ (qs : QuoteColumns).
      build qs nanos anchor source valid_until >>= λ b. completed b now back in
    let same : answers ((truncated s cutoff).quotes id) ≡ answers (s.quotes id) =
      ap answers (truncated-quotes s cutoff id v)
      ∙ (completed-until cut nanos anchor source valid_until now back v.low
            (until-IsSorted cutoff v.low (s.quotes id) (v.sorted id))
          ∙ (ap answers (until-until now cutoff (s.quotes id) h)
              ∙ sym (
                  completed-until (s.quotes id) nanos anchor source valid_until now back v.low
                    (v.sorted id)))) in
    elim (leb_ℤ interval_seconds (pos 0))
      as (λ b.
        ((throw_if b Error.invalid_argument >>= λ _.
        build ((truncated s cutoff).quotes id) nanos anchor source valid_until)
          >>= λ b. completed b now back)
        ≡ ((throw_if b Error.invalid_argument >>= λ _.
              build (s.quotes id) nanos anchor source valid_until)
            >>= λ b. completed b now back)) [ true ↦ refl | false ↦ same ]
