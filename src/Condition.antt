-- ===== src/Condition.antt =====
-- Conditions: cpp/core/include/volforge/condition.hpp and cpp/core/src/condition.cpp. A text is the
-- list of its bytes. A condition that reads a position which is not there throws.
pub mod TimeOfDay
use volforge.Prelude.{
  ℕ, zero, suc, ◌+◌, ◌-◌, ◌*◌, ◌/◌, ◌%◌, ◌^◌, ◌≤◌, ◌<◌, ◌≡◌, refl, sym, ap, ◌∙◌, subst, ◌≢◌, ◌↔◌,
  ◌⊎◌, inl, inr, Bool, true, false, not, ◌&&◌, ◌||◌, Option, none, some, List, [], ◌∷◌, ◌++◌, map,
  arith, ltb, leb, ◌==◌, if◌then◌else◌, ltb→lt, leb→le, ==_iff, Bool-cases, Option-cases, length,
  get_elem?, set, take, drop, replicate, filter_by, All, length-append, All-append, All-left,
  All-right, All-map, length-set, get_elem?-set_self, get_elem?-set_ne, get_elem?-All, ℤ, pos,
  negsuc, pos_part, neg_part, sub_ℕ, ◌+ℤ◌, ◌-ℤ◌, ◌*ℤ◌, neg, abs, ◌≤ℤ◌, ◌<ℤ◌, ltb_ℤ, leb_ℤ, eqb_ℤ,
  max_ℤ, min_ℤ, div_ℤ, +ℤ_parts, -ℤ_parts, neg_parts, eq_of_parts, eqb_ℤ_iff, eqb_ℤ_refl, int_laws,
  parts_of_eq, Error, Result, ok, err, ◌>>=◌, ◌>>◌, throw_if, or_throw, Result-cases, ok-injective,
  bind_ok, Safe, Safe-bind, Safe-map, Safe_of_ok, throw_if-Safe, is_fault, get_elem?-lt,
  get_elem?-append_left, get_elem?-snoc, get_elem?-snoc_cases, Returns, Returns-bind, Returns-then,
  Returns-map, Returns_of_ok, is_ok, returned, if_both,
}
use volforge.Types.{Timestamp}
use volforge.Market.{MarketView}
use volforge.Portfolio.{Portfolio}

pub record EvalCtx (F : Type 0) : Type 0 where
  pub market : MarketView
  pub portfolio : Portfolio F
  pub now : Timestamp

-- `Cond`: no function is `none`.
abbrev pub Cond : Type 0 → Type 0
Cond F = Option (EvalCtx F → Result Bool)

abbrev pub cond_valid : {F : Type 0} → Cond F → Bool
cond_valid none = false
cond_valid (some f) = true

abbrev pub eval : {F : Type 0} → Cond F → EvalCtx F → Result Bool
eval none c = ok false
eval (some f) c = f c

-- `a | b`, `a & b` and `!a`. The second is not evaluated where the first decides.
abbrev pub either : {F : Type 0} → Cond F → Cond F → Cond F
either a b = some (λ c. eval a c >>= λ x. if x then ok true else eval b c)

abbrev pub both : {F : Type 0} → Cond F → Cond F → Cond F
both a b = some (λ c. eval a c >>= λ x. if x then eval b c else ok false)

abbrev pub negated : {F : Type 0} → Cond F → Cond F
negated a = some (λ c. eval a c >>= λ x. ok (not x))

abbrev pub at_or_after : {F : Type 0} → Timestamp → Cond F
at_or_after t = some (λ c. ok (leb_ℤ t c.now))

abbrev pub is_digit : ℕ → Bool
is_digit c = leb 48 c && leb c 57

-- `std::from_chars` on two characters: a sign or none, then digits as far as they go.
unfoldable pub field : ℕ → ℕ → Result ℤ
field a b =
    if a == 45
    then (if is_digit b then ok (neg (pos (b - 48))) else err Error.invalid_argument)
    else if not (is_digit a)
    then err Error.invalid_argument
    else if is_digit b
    then ok (pos ((a - 48) * 10 + (b - 48)))
    else ok (pos (a - 48))

abbrev pub outside : ℤ → ℕ → Bool
outside v most = ltb_ℤ v (pos 0) || ltb_ℤ (pos most) v

abbrev pub seconds_of : ℤ → ℤ → ℤ → Result ℤ
seconds_of h m sec = do
  throw_if (outside h 23 || outside m 59 || outside sec 59) Error.invalid_argument
  ok (h *ℤ pos 3600 +ℤ m *ℤ pos 60 +ℤ sec)

-- `HH:MM` and `HH:MM:SS`.
unfoldable pub parse_time_of_day : List ℕ → Result ℤ
unfolding field
parse_time_of_day (a ∷ b ∷ _ ∷ c ∷ d ∷ []) = do h ← field a b; m ← field c d; seconds_of h m (pos 0)
parse_time_of_day (a ∷ b ∷ _ ∷ c ∷ d ∷ _ ∷ e ∷ f ∷ []) = do
  h ← field a b
  m ← field c d
  sec ← field e f
  seconds_of h m sec
parse_time_of_day _ = err Error.invalid_argument
