-- ===== src/Memory/Index.antt =====
-- The merge of a session's runs is the sorted list of their rows.
use volforge.Market.Merge.{pop_min-All}
use volforge.Market.Cursor.{run_rows}
use volforge.Market.Merge.{Ascending}
use volforge.Memory.Order.{insert-first}
use volforge.Market.Merge.{advance-rows, pop_min-rows, next-RunFrom, pop_min-le}
use volforge.Memory.{insert_event}
use volforge.Market.Cursor.{next}
use volforge.Memory.{InstrumentId}
use volforge.Market.Merge.{RunFrom}
use volforge.Market.Cursor.{advance}
use volforge.Memory.Order.{insert_all-All}
use volforge.Market.Cursor.{merged}
use volforge.Prelude.{
  ℕ, zero, suc, ◌+◌, ◌≤◌, ◌≡◌, refl, sym, ap, ◌∙◌, ◌≢◌, true, false, List, [], ◌∷◌, arith, All,
  All-map, ◌≤ℤ◌, eqb_ℤ_iff, eqb_ℤ_refl,
}
use volforge.Types.{Timestamp}
use volforge.Market.{Event}
use volforge.Market.Cursor.{Run, before, pop_min, head_event}
use volforge.Market.Merge.{pop_min-ind}
use volforge.Memory.{earlier, insert_all, row_events}
use volforge.Memory.Order.{insert_all_comm}

abbrev events_in : Run → List Event
events_in r = row_events r.instrument r.row (r.ts ∷ r.rest)

-- The rows of some runs, sorted.
unfoldable pub sorted_runs : List Run → List Event
sorted_runs [] = []
sorted_runs (r ∷ rs) = insert_all (events_in r) (sorted_runs rs)

-- No two runs are of one instrument.
abbrev pub Separate : List Run → Type 0
Separate [] = Unit {0}
Separate (r ∷ rs) = All (λ x. x.instrument ≢ r.instrument) rs × Separate rs

pop_min-sorted :
    (r : Run) (rs : List Run)
    → sorted_runs ((pop_min r rs).0 ∷ (pop_min r rs).1) ≡ sorted_runs (r ∷ rs)
unfolding sorted_runs
pop_min-sorted =
    pop_min-ind (λ r rs p. sorted_runs (p.0 ∷ p.1) ≡ sorted_runs (r ∷ rs)) (λ r. refl)
      (λ r x xs l o h e.
        insert_all_comm (events_in l) (events_in r) (sorted_runs o)
        ∙ ap (insert_all (events_in r)) h)
      (λ r x xs l o h e. refl)

abbrev Apart : Run → List Run → Type 0
Apart y = All (λ x. x.instrument ≢ y.instrument)

-- Popping keeps the runs apart, from one another and from any other run.
pop_min-Apart :
    (r : Run) (rs : List Run)
    → (Separate (r ∷ rs) → Separate ((pop_min r rs).0 ∷ (pop_min r rs).1))
      × ((y : Run) → Apart y (r ∷ rs) → Apart y ((pop_min r rs).0 ∷ (pop_min r rs).1))
pop_min-Apart =
    pop_min-ind
      (λ r rs p.
        (Separate (r ∷ rs) → Separate (p.0 ∷ p.1))
        × ((y : Run) → Apart y (r ∷ rs) → Apart y (p.0 ∷ p.1)))
      (λ r. ((λ h. h), λ y h. h))
      (λ r x xs l o ih e. (
        (λ h.
            let (here, rest) = ih.1 r h.0 in
            let (other, others) = ih.0 h.1 in (((λ same. here (sym same)), other), (rest, others))),
        λ y h. let (here, rest) = ih.1 y h.1 in (here, (h.0, rest)),
      ))
      (λ r x xs l o ih e. ((λ h. h), λ y h. h))

-- No run comes before the one that is popped.
abbrev NotBefore : Run → List Run → Type 0
NotBefore l = All (λ x. before x l ≡ false)

before-asym : (a b : Run) → before a b ≡ true → before b a ≡ false
before-asym a b h = ground (arith, eqb_ℤ_iff a.ts b.ts)

before_irrefl : (a : Run) → before a a ≡ false
before_irrefl a = ground (arith, eqb_ℤ_refl a.ts)

before_trans : (r l x : Run) → before l r ≡ false → before x l ≡ false → before x r ≡ false
before_trans r l x h k =
    ground (arith, eqb_ℤ_iff l.ts r.ts, eqb_ℤ_iff x.ts l.ts, eqb_ℤ_iff x.ts r.ts)

pop_min-NotBefore : (r : Run) (rs : List Run) → NotBefore (pop_min r rs).0 (r ∷ rs)
pop_min-NotBefore =
    pop_min-ind (λ r rs p. NotBefore p.0 (r ∷ rs)) (λ r. (before_irrefl r, tt))
      (λ r x xs l o h e. (before-asym l r e, h))
      (λ r x xs l o h e. (before_irrefl r, All-map _ _ (λ x k. before_trans r l x e k) (x ∷ xs) h))

-- An event of a run at or after its head does not come before the head of a run that the run is not
-- before, if that is of another instrument.
event-later :
    (l x : Run) (t : Timestamp) (k : ℕ)
    → before x l ≡ false
    → x.instrument ≢ l.instrument
    → x.ts ≤ℤ t
    → earlier (record { ts = t; instrument = x.instrument; row = k }) (head_event l) ≡ false
unfolding earlier
event-later l x t k h other late =
    ground (arith, eqb_ℤ_iff t l.ts, eqb_ℤ_iff x.ts l.ts, eqb_ℤ_iff x.instrument l.instrument)

rows-All :
    (P : Event → Type 0) (id : InstrumentId) (k : ℕ) (low : Timestamp) (ts : List Timestamp)
    → ((t : Timestamp) (j : ℕ) → low ≤ℤ t → k ≤ j → P (record { ts = t; instrument = id; row = j }))
    → Ascending low ts
    → All P (row_events id k ts)
unfolding row_events
rows-All P id k low [] each a = tt
rows-All P id k low (t ∷ ts) each (h, a) = (
  each t k h (omega arith),
  rows-All P id (k + 1) t ts (λ u j h' k'. each u j (omega arith) (omega arith)) a,
)

sorted_runs-All :
    (P : Event → Type 0) (rs : List Run)
    → All (λ r. All P (events_in r)) rs
    → All P (sorted_runs rs)
unfolding sorted_runs
sorted_runs-All P [] h = tt
sorted_runs-All P (r ∷ rs) (h, hs) =
    insert_all-All P (events_in r) (sorted_runs rs) h (sorted_runs-All P rs hs)

advance-sorted :
    (l : Run) (o : List Run)
    → sorted_runs (l ∷ o) ≡ insert_event (head_event l) (sorted_runs (advance l l.rest o))
unfolding sorted_runs insert_all advance row_events
advance-sorted l o =
    elim l.rest
      as (λ ts.
        sorted_runs (record l { rest = ts } ∷ o)
        ≡ insert_event (head_event l) (sorted_runs (advance l ts o))) [ [] ↦ refl | t ∷ ts ↦ refl ]

advance-Separate : (l : Run) (o : List Run) → Separate (l ∷ o) → Separate (advance l l.rest o)
unfolding advance
advance-Separate l o h = elim l.rest as (λ ts. Separate (advance l ts o)) [ [] ↦ h.1 | t ∷ ts ↦ h ]

-- The rows that are left are not before the head of the run that is popped.
NoneEarlier : Run → Run → Type 0
NoneEarlier l x = All (λ e. earlier e (head_event l) ≡ false) (events_in x)

others_later :
    (l : Run) (low : Timestamp) (xs : List Run)
    → All (RunFrom low) xs
    → NotBefore l xs
    → Apart l xs
    → All (NoneEarlier l) xs
unfolding NoneEarlier
others_later l low [] h k a = tt
others_later l low (x ∷ xs) (h, hs) (k, ks) (a, as') = (
  rows-All (λ e. earlier e (head_event l) ≡ false) x.instrument x.row x.ts (x.ts ∷ x.rest)
      (λ t j late _. event-later l x t j k a late) (omega arith, h.1),
  others_later l low xs hs ks as',
)

own_later :
    (l : Run) (t : Timestamp) (j : ℕ)
    → l.ts ≤ℤ t
    → l.row + 1 ≤ j
    → earlier (record { ts = t; instrument = l.instrument; row = j }) (head_event l) ≡ false
unfolding earlier
own_later l t j h k = ground (arith, eqb_ℤ_iff t l.ts, eqb_ℤ_refl l.instrument)

rest_later :
    (l : Run) (o : List Run)
    → Ascending l.ts l.rest
    → All (NoneEarlier l) o
    → All (NoneEarlier l) (advance l l.rest o)
unfolding advance NoneEarlier
rest_later l o a h =
    elim l.rest as (λ ts. Ascending l.ts ts → All (NoneEarlier l) (advance l ts o)) [
      | [] ↦ λ _. h
      | t ∷ ts ↦ λ b. (
        rows-All (λ e. earlier e (head_event l) ≡ false) l.instrument (l.row + 1) l.ts (t ∷ ts)
            (own_later l) b,
        h,
      )
    ]
      a

-- One step of the merge takes the first of the sorted rows.
next-sorted :
    (low : Timestamp) (l : Run) (o : List Run)
    → All (RunFrom low) (l ∷ o)
    → NotBefore l o
    → Separate (l ∷ o)
    → sorted_runs (l ∷ o) ≡ head_event l ∷ sorted_runs (advance l l.rest o)
unfolding row_events NoneEarlier
next-sorted low l o (h, hs) k s =
    let left = advance l l.rest o in
    advance-sorted l o
    ∙ insert-first (head_event l) (sorted_runs left) (
        sorted_runs-All (λ e. earlier e (head_event l) ≡ false) left
          (rest_later l o h.1 (others_later l low o hs k s.0)))

-- The merge of sorted runs of different instruments is the sorted list of their rows, on enough
-- fuel.
pub merged-sorted :
    (n : ℕ) (low : Timestamp) (runs : List Run)
    → All (RunFrom low) runs
    → Separate runs
    → run_rows runs ≤ n
    → merged n runs ≡ sorted_runs runs
unfolding merged next sorted_runs run_rows
merged-sorted zero low [] h s k = refl
merged-sorted (suc n) low [] h s k = refl
merged-sorted zero low (r ∷ rs) h s k = absurd (omega (arith, advance-rows r rs))
merged-sorted (suc n) low (r ∷ rs) h s k =
    let l = (pop_min r rs).0 in
    let o = (pop_min r rs).1 in
    let runs = pop_min-All (RunFrom low) r rs h in
    let apart = (pop_min-Apart r rs).0 s in
    let first = pop_min-All (λ x. l.ts ≤ℤ x.ts) r rs (pop_min-le r rs) in
    let least = pop_min-All (λ x. before x l ≡ false) r rs (pop_min-NotBefore r rs) in
    let rows = pop_min-rows r rs in
    let step = advance-rows l o in
    ap (λ (es : List Event). head_event l ∷ es)
      (merged-sorted n l.ts (advance l l.rest o) (next-RunFrom low l o runs.0 first.1 runs.1)
        (advance-Separate l o apart) (omega arith))
    ∙ (sym (next-sorted low l o runs least.1 apart) ∙ pop_min-sorted r rs)
