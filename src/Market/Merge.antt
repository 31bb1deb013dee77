-- ===== src/Market/Merge.antt =====
-- The merge emits every row once, in the order of time.
use volforge.Market.Cursor.{distinct_times}
use volforge.Prelude.{
  ℕ, zero, suc, ◌+◌, ◌≡◌, refl, subst, inl, inr, true, false, List, [], ◌∷◌, arith, if◌then◌else◌,
  Bool-cases, length, All, All-map, ◌≤ℤ◌, ◌<ℤ◌, eqb_ℤ, eq_of_parts, eqb_ℤ_iff,
}
use volforge.Types.{Timestamp}
use volforge.Market.{Event}
use volforge.Market.Cursor.{Run, before, pop_min, advance, next, merged, run_rows}

-- Times that do not go back, from `low` on.
abbrev pub Ascending : Timestamp → List Timestamp → Type 0
Ascending low [] = Unit {0}
Ascending low (t ∷ ts) = (low ≤ℤ t) × Ascending t ts

abbrev pub RunFrom : Timestamp → Run → Type 0
RunFrom low r = (low ≤ℤ r.ts) × Ascending r.ts r.rest

-- Events that do not go back in time.
abbrev pub InOrder : Timestamp → List Event → Type 0
InOrder low [] = Unit {0}
InOrder low (e ∷ es) = (low ≤ℤ e.ts) × InOrder e.ts es

pub not_before : (a b : Run) → before a b ≡ false → b.ts ≤ℤ a.ts
not_before a b h = ground (arith, eqb_ℤ_iff a.ts b.ts)

pub before-le : (a b : Run) → before a b ≡ true → a.ts ≤ℤ b.ts
before-le a b h = ground (arith, eqb_ℤ_iff a.ts b.ts)

-- Induction along `pop_min`.
pub pop_min-ind :
    (P : Run → List Run → Run × List Run → Type 0)
    → ((r : Run) → P r [] (r, []))
    → ((r x : Run) (xs : List Run) (l : Run) (o : List Run)
        → P x xs (l, o)
        → before l r ≡ true
        → P r (x ∷ xs) (l, r ∷ o))
    → ((r x : Run) (xs : List Run) (l : Run) (o : List Run)
        → P x xs (l, o)
        → before l r ≡ false
        → P r (x ∷ xs) (r, x ∷ xs))
    → (r : Run) (rs : List Run) → P r rs (pop_min r rs)
unfolding pop_min
pop_min-ind P one other same r [] = one r
pop_min-ind P one other same r (x ∷ xs) =
    let (l, o) = pop_min x xs in
    let rest = pop_min-ind P one other same x xs in
    elim (before l r)
        as (λ b. before l r ≡ b → P r (x ∷ xs) (if b then (l, r ∷ o) else (r, x ∷ xs))) [
          | true ↦ other r x xs l o rest
          | false ↦ same r x xs l o rest
        ]
      refl

abbrev pub NoLater : Run → List Run → Type 0
NoLater l = All (λ x. l.ts ≤ℤ x.ts)

NoLater-trans : (r l : Run) (xs : List Run) → r.ts ≤ℤ l.ts → NoLater l xs → NoLater r xs
NoLater-trans r l xs h = All-map _ _ (λ x k. omega arith) xs

-- What `pop_min` returns is no later than the runs it was given.
pub pop_min-le : (r : Run) (rs : List Run) → NoLater (pop_min r rs).0 (r ∷ rs)
pop_min-le =
    pop_min-ind (λ r rs p. NoLater p.0 (r ∷ rs)) (λ r. (omega arith, tt))
      (λ r x xs l o h e. (before-le l r e, h))
      (λ r x xs l o h e. (omega arith, NoLater-trans r l (x ∷ xs) (not_before l r e) h))

-- It loses no run and makes up none.
pub pop_min-All :
    (Q : Run → Type 0) (r : Run) (rs : List Run)
    → All Q (r ∷ rs)
    → All Q ((pop_min r rs).0 ∷ (pop_min r rs).1)
pop_min-All Q =
    pop_min-ind (λ r rs p. All Q (r ∷ rs) → All Q (p.0 ∷ p.1)) (λ r h. h)
      (λ r x xs l o h e k. let (here, rest) = h k.1 in (here, (k.0, rest))) (λ r x xs l o h e k. k)

pub pop_min-rows :
    (r : Run) (rs : List Run) → run_rows ((pop_min r rs).0 ∷ (pop_min r rs).1) ≡ run_rows (r ∷ rs)
unfolding run_rows
pop_min-rows =
    pop_min-ind (λ r rs p. run_rows (p.0 ∷ p.1) ≡ run_rows (r ∷ rs)) (λ r. refl)
      (λ r x xs l o h e. omega (arith, h)) (λ r x xs l o h e. refl)

pub advance-rows :
    (r : Run) (rs : List Run) → suc (run_rows (advance r r.rest rs)) ≡ run_rows (r ∷ rs)
unfolding run_rows advance
advance-rows r rs =
    elim r.rest as (λ ts. suc (run_rows (advance r ts rs)) ≡ suc (length ts) + run_rows rs) [
      | [] ↦ omega arith
      | t ∷ ts ↦ omega arith
    ]

pub restart :
    (t low : Timestamp) (xs : List Run)
    → All (λ x. t ≤ℤ x.ts) xs
    → All (RunFrom low) xs
    → All (RunFrom t) xs
restart t low [] k h = tt
restart t low (x ∷ xs) (k, ks) ((_, a), hs) = ((k, a), restart t low xs ks hs)

-- The runs after one step start where its event stood, or later.
pub next-RunFrom :
    (low : Timestamp) (l : Run) (o : List Run)
    → RunFrom low l
    → NoLater l o
    → All (RunFrom low) o
    → All (RunFrom l.ts) (advance l l.rest o)
unfolding advance
next-RunFrom low l o h k rest =
    let later = restart l.ts low o k rest in
    elim l.rest as (λ ts. Ascending l.ts ts → All (RunFrom l.ts) (advance l ts o)) [
      | [] ↦ λ _. later
      | t ∷ ts ↦ λ a. (a, later)
    ]
      h.1

-- Every event that the merge emits is at or after the one before it, if each run is sorted.
pub merged-InOrder :
    (n : ℕ) (low : Timestamp) (runs : List Run)
    → All (RunFrom low) runs
    → InOrder low (merged n runs)
unfolding merged next
merged-InOrder zero low runs h = tt
merged-InOrder (suc n) low [] h = tt
merged-InOrder (suc n) low (r ∷ rs) h =
    let l = (pop_min r rs).0 in
    let o = (pop_min r rs).1 in
    let (here, rest) = pop_min-All (RunFrom low) r rs h in
    let first = pop_min-All (λ x. l.ts ≤ℤ x.ts) r rs (pop_min-le r rs) in
    (here.0, merged-InOrder n l.ts (advance l l.rest o) (next-RunFrom low l o here first.1 rest))

Ascending-lower :
    (low low' : Timestamp) (ts : List Timestamp)
    → low ≤ℤ low'
    → Ascending low' ts
    → Ascending low ts
Ascending-lower low low' [] h a = tt
Ascending-lower low low' (t ∷ ts) h a = (omega (arith, a.0), a.1)

pub distinct-Ascending :
    (low seen : Timestamp) (es : List Event)
    → InOrder low es
    → Ascending low (distinct_times seen es)
unfolding distinct_times
distinct-Ascending low seen [] h = tt
distinct-Ascending low seen (e ∷ es) (h, hs) =
    let rest = distinct-Ascending e.ts e.ts es hs in
    elim (eqb_ℤ e.ts seen)
      as (λ b.
        Ascending low (if b then distinct_times e.ts es else e.ts ∷ distinct_times e.ts es)) [
          | true ↦ Ascending-lower low e.ts (distinct_times e.ts es) h rest
          | false ↦ (h, rest)
        ]

-- Times that go forward, from after `low` on.
abbrev pub Rising : Timestamp → List Timestamp → Type 0
Rising low [] = Unit {0}
Rising low (t ∷ ts) = (low <ℤ t) × Rising t ts

-- The distinct times of events that do not go back are strictly rising.
pub distinct-Rising :
    (seen : Timestamp) (es : List Event) → InOrder seen es → Rising seen (distinct_times seen es)
unfolding distinct_times
distinct-Rising seen [] h = tt
distinct-Rising seen (e ∷ es) (h, hs) = elim (Bool-cases (eqb_ℤ e.ts seen)) [
  | inl same ↦ rw same (
      subst (λ t. Rising t (distinct_times e.ts es)) ((eqb_ℤ_iff e.ts seen).0 same)
        (distinct-Rising e.ts es hs))
  | inr new ↦
      rw new
        (ground (arith, eqb_ℤ_iff e.ts seen, eq_of_parts e.ts seen), distinct-Rising e.ts es hs)
]
