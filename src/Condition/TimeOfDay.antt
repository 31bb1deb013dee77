-- ===== src/Condition/TimeOfDay.antt =====
-- `parse_time_of_day`: what it accepts is a second of the day, and a time that is written out comes
-- back.
use volforge.Prelude.{
  ℕ, ◌+◌, ◌*◌, ◌/◌, ◌%◌, ◌≤◌, ◌<◌, ◌≡◌, refl, Bool, true, false, ◌||◌, List, [], ◌∷◌, arith, ℤ, pos,
  negsuc, ◌+ℤ◌, ◌*ℤ◌, ◌≤ℤ◌, ◌<ℤ◌, ltb_ℤ, Error, ok, ◌>>=◌, throw_if, Returns, Returns-then,
}
use volforge.Condition.{field, outside, seconds_of, parse_time_of_day}

-- A second of the day.
abbrev pub IsSecond : ℤ → Type 0
IsSecond t = (pos 0 ≤ℤ t) × (t <ℤ pos 86400)

or_false : (x y : Bool) → (x || y) ≡ false → (x ≡ false) × (y ≡ false)
or_false true y h = cc
or_false false y h = (refl, h)

inside : (v : ℤ) (most : ℕ) → outside v most ≡ false → (n : ℕ) × (v ≡ pos n) × (n ≤ most)
inside (pos n) most h = (n, refl, ground arith)
inside (negsuc n) most h =
    let below : ltb_ℤ (negsuc n) (pos 0) ≡ true = ground arith in
    let (above, _) = or_false (ltb_ℤ (negsuc n) (pos 0)) (ltb_ℤ (pos most) (negsuc n)) h in cc

seconds_value :
    (h m sec : ℕ) → pos h *ℤ pos 3600 +ℤ pos m *ℤ pos 60 +ℤ pos sec ≡ pos (h * 3600 + m * 60 + sec)
unfolding ◌*ℤ◌ ◌+ℤ◌
seconds_value h m sec = ground arith

seconds_of-IsSecond : (h m sec : ℤ) → Returns (seconds_of h m sec) IsSecond
seconds_of-IsSecond h m sec =
    elim (outside h 23 || outside m 59 || outside sec 59)
        as (λ b.
          (outside h 23 || outside m 59 || outside sec 59) ≡ b
          → Returns
              (throw_if b Error.invalid_argument >>= λ _. ok (h *ℤ pos 3600 +ℤ m *ℤ pos 60 +ℤ sec))
              IsSecond) [
                | true ↦ λ e. tt
                | false ↦ λ e.
                    let (first, third) = or_false _ _ e in
                    let (hours, minutes) = or_false _ _ first in
                    let (a, same_h, small_h) = inside h 23 hours in
                    let (b, same_m, small_m) = inside m 59 minutes in
                    let (c, same_s, small_s) = inside sec 59 third in
                    rw (same_h, same_m, same_s, seconds_value a b c) (omega arith, omega arith)
              ]
      refl

-- Where `parse_time_of_day` returns, it returns a second of the day.
pub parse_time_of_day-IsSecond : (s : List ℕ) → Returns (parse_time_of_day s) IsSecond
unfolding parse_time_of_day
parse_time_of_day-IsSecond [] = tt
parse_time_of_day-IsSecond (a ∷ []) = tt
parse_time_of_day-IsSecond (a ∷ b ∷ []) = tt
parse_time_of_day-IsSecond (a ∷ b ∷ x ∷ []) = tt
parse_time_of_day-IsSecond (a ∷ b ∷ x ∷ c ∷ []) = tt
parse_time_of_day-IsSecond (a ∷ b ∷ x ∷ c ∷ d ∷ []) =
    Returns-then _ (field a b) _
      λ h. Returns-then _ (field c d) _ λ m. seconds_of-IsSecond h m (pos 0)
parse_time_of_day-IsSecond (a ∷ b ∷ x ∷ c ∷ d ∷ y ∷ []) = tt
parse_time_of_day-IsSecond (a ∷ b ∷ x ∷ c ∷ d ∷ y ∷ e ∷ []) = tt
parse_time_of_day-IsSecond (a ∷ b ∷ x ∷ c ∷ d ∷ y ∷ e ∷ f ∷ []) = Returns-then _ (field a b) _ λ h.
    Returns-then _ (field c d) _
      λ m. Returns-then _ (field e f) _ λ sec. seconds_of-IsSecond h m sec
parse_time_of_day-IsSecond (a ∷ b ∷ x ∷ c ∷ d ∷ y ∷ e ∷ f ∷ g ∷ s) = tt

-- A time that is written out, with colons.
abbrev pub tens : ℕ → ℕ
tens n = 48 + n / 10

abbrev pub unit : ℕ → ℕ
unit n = 48 + n % 10

abbrev pub written : ℕ → ℕ → ℕ → List ℕ
written h m sec = tens h ∷ unit h ∷ 58 ∷ tens m ∷ unit m ∷ 58 ∷ tens sec ∷ unit sec ∷ []

field-digits : (n : ℕ) → n < 100 → field (tens n) (unit n) ≡ ok (pos n)
unfolding field
field-digits n h = ground arith

seconds_of_lem :
    (h m sec : ℕ)
    → h < 24
    → m < 60
    → sec < 60
    → seconds_of (pos h) (pos m) (pos sec) ≡ ok (pos (h * 3600 + m * 60 + sec))
seconds_of_lem h m sec i j k =
    let hours : outside (pos h) 23 ≡ false = ground arith in
    let minutes : outside (pos m) 59 ≡ false = ground arith in
    let seconds : outside (pos sec) 59 ≡ false = ground arith in
    rw (hours, minutes, seconds, seconds_value h m sec) refl

-- A time of day that is written out as `HH:MM:SS` is read back.
pub parse_time_of_day-written :
    (h m sec : ℕ)
    → h < 24
    → m < 60
    → sec < 60
    → parse_time_of_day (written h m sec) ≡ ok (pos (h * 3600 + m * 60 + sec))
unfolding parse_time_of_day
parse_time_of_day-written h m sec i j k =
    rw (field-digits h (omega arith), field-digits m (omega arith), field-digits sec (omega arith))
      (seconds_of_lem h m sec i j k)
