-- ===== src/Strategy/Schedule.antt =====
-- When the conditions of a schedule hold.
use volforge.Prelude.{
  ℕ, ◌≡◌, refl, sym, ◌∙◌, ◌⊎◌, inl, inr, true, false, some, List, [], ◌∷◌, arith, Bool-cases, All,
  ℤ, ◌<ℤ◌, ltb_ℤ, leb_ℤ, ok, Result-cases, Returns,
}
use volforge.Types.{Date}
use volforge.Types.Calendar.{timestamp_of}
use volforge.Condition.{EvalCtx, eval, parse_time_of_day}
use volforge.Strategy.Context.{Ctx, next_session, resolved, scheduled, at_time}

-- The times of day `sod` that are still to come: that of the date, if it is, and those of the later
-- sessions of the calendar.
abbrev pub Coming : Ctx → ℤ → List Date → Type 0
Coming ctx sod dates =
    All (λ d. (ltb_ℤ ctx.date d ≡ false) ⊎ (ctx.market.now <ℤ timestamp_of d sod ctx.utc_offset))
      dates

after_now : (now t : ℤ) → now <ℤ t → leb_ℤ t now ≡ false
after_now now t h = ground arith

module _ {F : Type 0} (ctx : Ctx) (sod : ℤ) (c : EvalCtx F) (same : c.now ≡ ctx.market.now) where
  resolved-waits :
      (dates : List Date)
      → Coming ctx sod dates
      → eval (resolved ctx sod (next_session ctx.date dates)) c ≡ ok false
  unfolding next_session
  resolved-waits [] h = refl
  resolved-waits (d ∷ ds) (h, hs) = elim (Bool-cases (ltb_ℤ ctx.date d)) [
    | inl e ↦ elim h [
      | inl early ↦ absurd (true-ne (sym e ∙ early))
      | inr coming ↦
          rw (e, same, after_now ctx.market.now (timestamp_of d sod ctx.utc_offset) coming) refl
    ]
    | inr e ↦ rw e (resolved-waits ds hs)
  ]
    where
      true-ne : true ≡ false → ⊥
      true-ne x = cc

  scheduled-waits :
      (dates : List Date)
      → ctx.calendar ≡ some dates
      → Coming ctx sod dates
      → eval (scheduled ctx sod) c ≡ ok false
  scheduled-waits dates known h =
      let today = timestamp_of ctx.date sod ctx.utc_offset in
      elim (Bool-cases (ltb_ℤ ctx.market.now today)) [
        | inl e ↦ rw (e, same, after_now ctx.market.now today (sooner ctx.market.now today e)) refl
        | inr e ↦ rw (e, known) (resolved-waits dates h)
      ]
    where
      sooner : (a b : ℤ) → ltb_ℤ a b ≡ true → a <ℤ b
      sooner a b e = ground arith

-- Where `at` returns a condition in a run with a calendar, the condition does not hold yet, so that a
-- strategy that loops over it waits, if the times of day of the calendar's later sessions are to come.
pub at_time-waits :
    {F : Type 0} (ctx : Ctx) (hhmm : List ℕ) (dates : List Date)
    → (c : EvalCtx F) → c.now ≡ ctx.market.now
    → ctx.calendar ≡ some dates
    → ((sod : ℤ) → parse_time_of_day hhmm ≡ ok sod → Coming ctx sod dates)
    → Returns (at_time ctx hhmm) (λ cond. eval cond c ≡ ok false)
unfolding at_time
at_time-waits ctx hhmm dates c same known h = elim (Result-cases (parse_time_of_day hhmm)) [
  | inl (sod, e) ↦ rw e (scheduled-waits ctx sod c same dates known (h sod e))
  | inr (x, e) ↦ rw e tt
]
