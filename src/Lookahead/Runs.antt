-- ===== src/Lookahead/Runs.antt =====
-- The merge of a truncated session is the merge of the whole one, cut at the cutoff.
use mathlib.Core.Option.{some-injective}
use volforge.Prelude.{
  ℕ, zero, suc, ◌+◌, ◌≤◌, ◌≡◌, refl, sym, ap, ◌∙◌, ◌⊎◌, inl, inr, true, false, Option, none, some,
  List, [], ◌∷◌, arith, if◌then◌else◌, Bool-cases, filter_by, All, ℤ, ◌≤ℤ◌, ◌<ℤ◌, leb_ℤ,
}
use volforge.Types.{Timestamp}
use volforge.Market.{Event}
use volforge.Market.Cursor.{Run, before, pop_min, advance, head_event, next, merged, run_rows}
use volforge.Market.Merge.{
  Ascending, RunFrom, pop_min-ind, pop_min-le, pop_min-All, pop_min-rows, advance-rows,
  next-RunFrom, merged-InOrder, restart, not_before, before-le, InOrder,
}

abbrev pub until_times : Timestamp → List Timestamp → List Timestamp
until_times c = filter_by (λ t. leb_ℤ t c)

abbrev pub until_events : Timestamp → List Event → List Event
until_events c = filter_by (λ e. leb_ℤ e.ts c)

abbrev clip_head : Timestamp → Run → Run
clip_head c r = record r { rest = until_times c r.rest }

unfoldable pub clip_runs : Timestamp → List Run → List Run
clip_runs c [] = []
clip_runs c (r ∷ rs) =
    let rest = clip_runs c rs in if leb_ℤ r.ts c then clip_head c r ∷ rest else rest

abbrev first_of : List Run → Option (Run × List Run)
first_of [] = none
first_of (r ∷ rs) = some (pop_min r rs)

-- Whether `p`, taken from `runs`, is also what the clipped runs give.
abbrev Clips : Timestamp → List Run → Run × List Run → Type 0
Clips c runs p =
    (p.0.ts ≤ℤ c → first_of (clip_runs c runs) ≡ some (clip_head c p.0, clip_runs c p.1))
    × (c <ℤ p.0.ts → clip_runs c runs ≡ [])

first_of-cons :
    (r : Run) (rs : List Run) {l : Run} {o : List Run}
    → first_of rs ≡ some (l, o)
    → first_of (r ∷ rs) ≡ some (if before l r then (l, r ∷ o) else (r, rs))
unfolding pop_min
first_of-cons r [] h = cc
first_of-cons r (x ∷ xs) h = rw (some-injective _ _ h) refl

pub le_or_lt : (a b : ℤ) → (a ≤ℤ b) ⊎ (b <ℤ a)
le_or_lt a b = elim (Bool-cases (leb_ℤ a b)) [
  | inl e ↦ inl (ground arith)
  | inr e ↦ inr (ground arith)
]

module _ (c : Timestamp) (r : Run) (rs : List Run) where
  pub clip_keep : r.ts ≤ℤ c → clip_runs c (r ∷ rs) ≡ clip_head c r ∷ clip_runs c rs
  unfolding clip_runs
  clip_keep h = ground arith

  pub clip_drop : c <ℤ r.ts → clip_runs c (r ∷ rs) ≡ clip_runs c rs
  unfolding clip_runs
  clip_drop h = ground arith

Clips-one : (c : Timestamp) (r : Run) → Clips c (r ∷ []) (r, [])
unfolding clip_runs pop_min
Clips-one c r = (λ h. rw (clip_keep c r [] h) refl, λ h. clip_drop c r [] h)

module _ (c : Timestamp) (r : Run) (rs : List Run) (l : Run) (o : List Run)
    (h : Clips c rs (l, o)) where
  Clips-other : before l r ≡ true → Clips c (r ∷ rs) (l, r ∷ o)
  Clips-other e = (
    λ k. elim (le_or_lt r.ts c) [
      | inl kept ↦
          rw (clip_keep c r rs kept, clip_keep c r o kept)
            (first_of-cons (clip_head c r) (clip_runs c rs) (h.0 k) ∙ rw e refl)
      | inr late ↦ rw (clip_drop c r rs late, clip_drop c r o late) (h.0 k)
    ],
    λ k. clip_drop c r rs (let le = before-le l r e in omega arith) ∙ h.1 k,
  )

  Clips-same : before l r ≡ false → Clips c (r ∷ rs) (r, rs)
  unfolding pop_min
  Clips-same e = (
    λ kept. elim (le_or_lt l.ts c) [
      | inl k ↦
          rw (clip_keep c r rs kept)
            (first_of-cons (clip_head c r) (clip_runs c rs) (h.0 k) ∙ rw e refl)
      | inr k ↦ rw (clip_keep c r rs kept, h.1 k) refl
    ],
    λ late. clip_drop c r rs late ∙ h.1 (let le = not_before l r e in omega arith),
  )

pop_min-Clips : (c : Timestamp) (r : Run) (rs : List Run) → Clips c (r ∷ rs) (pop_min r rs)
pop_min-Clips c =
    pop_min-ind (λ r rs p. Clips c (r ∷ rs) p) (Clips-one c)
      (λ r x xs l o h e. Clips-other c r (x ∷ xs) l o h e)
      (λ r x xs l o h e. Clips-same c r (x ∷ xs) l o h e)

pub until_times_late :
    (c low : Timestamp) (ts : List Timestamp) → Ascending low ts → c <ℤ low → until_times c ts ≡ []
until_times_late c low [] a h = refl
until_times_late c low (t ∷ ts) a h = ground (arith, until_times_late c t ts a.1)

pub until_times_keep :
    (c t : Timestamp) (ts : List Timestamp) → t ≤ℤ c → until_times c (t ∷ ts) ≡ t ∷ until_times c ts
until_times_keep c t ts h = ground arith

-- Moving a run on and clipping can be done in either order.
advance-clip :
    (c : Timestamp) (l : Run) (o : List Run) (ts : List Timestamp)
    → Ascending l.ts ts
    → clip_runs c (advance l ts o) ≡ advance (clip_head c l) (until_times c ts) (clip_runs c o)
unfolding advance
advance-clip c l o [] a = refl
advance-clip c l o (t ∷ ts) a = elim (le_or_lt t c) [
  | inl kept ↦
      clip_keep c (record l { row = l.row + 1; ts = t; rest = ts }) o kept
      ∙ sym (ap (λ us. advance (clip_head c l) us (clip_runs c o)) (until_times_keep c t ts kept))
  | inr late ↦
      clip_drop c (record l { row = l.row + 1; ts = t; rest = ts }) o late
      ∙ sym (
          ap (λ us. advance (clip_head c l) us (clip_runs c o))
            (until_times_late c t (t ∷ ts) (omega arith, a.1) late))
]

pub until_events_late :
    (c low : Timestamp) (es : List Event) → InOrder low es → c <ℤ low → until_events c es ≡ []
until_events_late c low [] a h = refl
until_events_late c low (e ∷ es) a h = ground (arith, until_events_late c e.ts es a.1)

pub until_events_keep :
    (c : Timestamp) (e : Event) (es : List Event)
    → e.ts ≤ℤ c
    → until_events c (e ∷ es) ≡ e ∷ until_events c es
until_events_keep c e es h = ground arith

merged_nil : (k : ℕ) → merged k [] ≡ []
unfolding merged next
merged_nil zero = refl
merged_nil (suc k) = refl

merged-first :
    (k : ℕ) (xs : List Run) {l : Run} {o : List Run}
    → first_of xs ≡ some (l, o)
    → merged (suc k) xs ≡ head_event l ∷ merged k (advance l l.rest o)
unfolding merged next
merged-first k [] h = cc
merged-first k (x ∷ xs) h =
    ap (λ (p : Run × List Run). head_event p.0 ∷ merged k (advance p.0 p.0.rest p.1))
      (some-injective _ _ h)

rows-first :
    (xs : List Run) {l : Run} {o : List Run}
    → first_of xs ≡ some (l, o)
    → run_rows xs ≡ suc (run_rows (advance l l.rest o))
rows-first [] h = cc
rows-first (x ∷ xs) h =
    sym (pop_min-rows x xs)
    ∙ (sym (advance-rows (pop_min x xs).0 (pop_min x xs).1)
        ∙ ap (λ (p : Run × List Run). suc (run_rows (advance p.0 p.0.rest p.1)))
            (some-injective _ _ h))

-- One step of both merges.
merged_clipped :
    (c : Timestamp) (n : ℕ) (l : Run) (o : List Run) (es : List Event) (k : ℕ) (xs : List Run)
    → first_of xs ≡ some (clip_head c l, clip_runs c o)
    → run_rows xs ≤ k
    → clip_runs c (advance l l.rest o)
      ≡ advance (clip_head c l) (until_times c l.rest) (clip_runs c o)
    → es ≡ head_event l ∷ merged n (advance l l.rest o)
    → l.ts ≤ℤ c
    → ((k' : ℕ)
        → run_rows (clip_runs c (advance l l.rest o)) ≤ k'
        → merged k' (clip_runs c (advance l l.rest o))
          ≡ until_events c (merged n (advance l l.rest o)))
    → merged k xs ≡ until_events c es
merged_clipped c n l o es zero xs first hk moved full kept ih =
    absurd (omega (arith, rows-first xs first))
merged_clipped c n l o es (suc k) xs first hk moved full kept ih =
    let rows = rows-first xs first in
    let same = ap run_rows moved in
    merged-first k xs first
    ∙ (ap (λ (x : List Event). head_event l ∷ x)
          (ap (merged k) (sym moved) ∙ ih k (omega (arith, rows, same)))
        ∙ sym (
            ap (until_events c) full
            ∙ until_events_keep c (head_event l) (merged n (advance l l.rest o)) kept))

-- The merge of clipped runs is the merge of the runs, up to the cutoff: each run is sorted, and
-- there is fuel for every row.
pub merged-until :
    (c low : Timestamp) (n k : ℕ) (runs : List Run)
    → All (RunFrom low) runs
    → run_rows runs ≤ n
    → run_rows (clip_runs c runs) ≤ k
    → merged k (clip_runs c runs) ≡ until_events c (merged n runs)
unfolding clip_runs
merged-until c low n k [] h hn hk = merged_nil k ∙ ap (until_events c) (sym (merged_nil n))
merged-until c low zero k (r ∷ rs) h hn hk = absurd (omega (arith, rows-first (r ∷ rs) refl))
merged-until c low (suc n) k (r ∷ rs) h hn hk =
    let l = (pop_min r rs).0 in
    let o = (pop_min r rs).1 in
    let (here, rest) = pop_min-All (RunFrom low) r rs h in
    let first = pop_min-le r rs in
    let later = (pop_min-All (λ x. l.ts ≤ℤ x.ts) r rs first).1 in
    let full = merged-first n (r ∷ rs) refl in
    let (keep, drop) = pop_min-Clips c r rs in
    elim (le_or_lt l.ts c) [
      | inl kept ↦
          let moved = advance-clip c l o l.rest here.1 in
          merged_clipped c n l o (merged (suc n) (r ∷ rs)) k (clip_runs c (r ∷ rs)) (keep kept) hk
            moved full kept
            (λ k' hk'.
              merged-until c l.ts n k' (advance l l.rest o) (next-RunFrom low l o here later rest)
                (omega (arith, rows-first (r ∷ rs) refl)) hk')
      | inr late ↦ rw (drop late) (
          merged_nil k
          ∙ sym (
              until_events_late c l.ts (merged (suc n) (r ∷ rs))
                (merged-InOrder (suc n) l.ts (r ∷ rs) (restart l.ts low (r ∷ rs) first h)) late))
    ]
