-- ===== src/Strategy/Search.antt =====
-- The search for the forward: it reads no strike that is not there, and has turns enough.
use volforge.Prelude.{
  ℕ, zero, suc, ◌+◌, ◌-◌, ◌*◌, ◌≤◌, ◌<◌, ◌≡◌, refl, inl, inr, Bool, true, false, not, ◌&&◌, Option,
  none, some, arith, ltb, leb, ◌==◌, if◌then◌else◌, ltb→lt, Bool-cases, Result, ok, Safe, Safe-bind,
  if_both,
}
use volforge.Double.{Double}
use volforge.Strategy.Forward.{
  Pricing, Search, probe, found_at, usable_from, nearer, raised, lowered, widen, bracket, middle,
  halved, bisect, search, nought, or_else, bisected,
}

-- The bracket and the best strike lie within `n` strikes, and the parity there is what was read.
pub record Within {F : Type 0} (parity : ℕ → Result (Option F)) (n : ℕ) (s : Search F)
    : Type 0 where
  pub best_in : s.best < n
  pub known : parity s.best ≡ ok (some s.best_diff)
  pub ordered : s.lo ≤ s.hi
  pub hi_in : s.hi < n

module _ {F : Type 0} ⦃d : Double F⦄ ⦃x : Pricing F⦄ (parity : ℕ → Result (Option F)) (n : ℕ)
    (reads : (i : ℕ) → i < n → Safe (parity i) (λ diff. parity i ≡ ok diff)) where
  abbrev pub Placed : Option (ℕ × F) → Type 0
  Placed none = Unit {0}
  Placed (some (i, diff)) = (i < n) × (parity i ≡ ok (some diff))

  found_at-Placed :
      (i : ℕ) (diff : Option F) → i < n → parity i ≡ ok diff → Placed (found_at parity i diff)
  found_at-Placed i none h e = tt
  found_at-Placed i (some y) h e = (h, e)

  probe-Safe : (b : Bool) (i : ℕ) → (b ≡ true → i < n) → Safe (probe parity b i) Placed
  probe-Safe false i h = tt
  probe-Safe true i h =
      Safe-bind (λ diff. parity i ≡ ok diff) Placed (parity i) _ (reads i (h refl))
        λ diff e. found_at-Placed i diff (h refl) e

  nearer-Within :
      (i : ℕ) (diff : F) (s : Search F)
      → i < n
      → parity i ≡ ok (some diff)
      → Within parity n s
      → Within parity n (nearer parity i diff s)
  nearer-Within i diff s h k w =
      if_both (Within parity n) (d.lt (x.fabs diff) (x.fabs s.best_diff))
        (record { best_in = h; known = k; ordered = w.ordered; hi_in = w.hi_in }) w

  raised-Within :
      (i : ℕ) (s : Search F) (diff : Option F)
      → s.best ≤ i
      → i < n
      → parity i ≡ ok diff
      → Within parity n s
      → Within parity n (raised parity i s diff).1
  raised-Within i s none above h k w = w
  raised-Within i s (some y) above h k w =
      nearer-Within i y (record s { lo = s.best; hi = i }) h k
        (record { best_in = w.best_in; known = w.known; ordered = above; hi_in = h })

  lowered-Within :
      (i : ℕ) (s : Search F) (diff : Option F)
      → i ≤ s.best
      → i < n
      → parity i ≡ ok diff
      → Within parity n s
      → Within parity n (lowered parity i s diff).1
  lowered-Within i s none below h k w = w
  lowered-Within i s (some y) below h k w =
      nearer-Within i y (record s { lo = i; hi = s.best }) h k
        (record { best_in = w.best_in; known = w.known; ordered = below; hi_in = w.best_in })

  widen-Safe :
      (stride : ℕ) (s : Search F)
      → Within parity n s
      → Safe (widen parity n stride s) (λ r. Within parity n r.1)
  widen-Safe stride s w = elim (Bool-cases (d.lt (nought parity) s.best_diff)) [
    | inl e ↦ elim (Bool-cases (leb n (s.best + stride))) [
      | inl e' ↦ rw (e, e') w
      | inr e' ↦
          let h : s.best + stride < n = ground arith in
          rw (e, e')
            (Safe-bind (λ diff. parity (s.best + stride) ≡ ok diff) (λ r. Within parity n r.1)
              (parity (s.best + stride)) _ (reads (s.best + stride) h)
              λ diff k. raised-Within (s.best + stride) s diff (omega arith) h k w)
    ]
    | inr e ↦ elim (Bool-cases (ltb s.best stride)) [
      | inl e' ↦ rw (e, e') w
      | inr e' ↦
          let h : s.best - stride < n = omega (arith, w.best_in) in
          rw (e, e')
            (Safe-bind (λ diff. parity (s.best - stride) ≡ ok diff) (λ r. Within parity n r.1)
              (parity (s.best - stride)) _ (reads (s.best - stride) h)
              λ diff k. lowered-Within (s.best - stride) s diff (omega arith) h k w)
    ]
  ]

  bracket-Safe :
      (turns stride : ℕ) (s : Search F)
      → 0 < stride
      → n ≤ turns + stride
      → Within parity n s
      → Safe (bracket parity n turns stride s) (Within parity n)
  unfolding bracket
  bracket-Safe zero stride s p h w = let over : leb n stride ≡ true = ground arith in rw over w
  bracket-Safe (suc turns) stride s p h w =
      if_both (λ (r : Result (Search F)). Safe r (Within parity n)) (leb n stride) w
        (Safe-bind (λ r. Within parity n r.1) (Within parity n) (widen parity n stride s) _
          (widen-Safe stride s w)
          λ r w'.
            if_both (λ (r : Result (Search F)). Safe r (Within parity n)) r.0
              (bracket-Safe turns (stride * 2) r.1 (omega arith) (omega (arith, h, p)) w') w')

  middle_between :
      (s : Search F) → s.lo + 1 < s.hi → (s.lo < middle parity s) × (middle parity s < s.hi)
  middle_between s h = (omega (arith, h), omega (arith, h))

  -- What a turn of the bisection keeps, with the turns that are left after it.
  abbrev Left : ℕ → Search F → Type 0
  Left turns s = (s.hi ≤ turns + s.lo + 1) × Within parity n s

  halved-Left :
      (turns i : ℕ) (s : Search F) (diff : F)
      → parity i ≡ ok (some diff)
      → (s.lo < i) × (i < s.hi)
      → Left (suc turns) s
      → Left turns (halved parity i s diff)
  halved-Left turns i s diff known (above, below) (h, w) =
      if_both (λ (m : Search F). Left turns (halved_of m)) (d.lt (x.fabs diff) (x.fabs s.best_diff))
        (cut (record s { best = i; best_diff = diff }) refl refl (omega (arith, below, w.hi_in))
          known)
        (cut s refl refl w.best_in w.known)
    where
      halved_of : Search F → Search F
      halved_of m = if d.lt (nought parity) diff then record m { lo = i } else record m { hi = i }

      cut :
          (m : Search F)
          → m.lo ≡ s.lo
          → m.hi ≡ s.hi
          → m.best < n
          → parity m.best ≡ ok (some m.best_diff)
          → Left turns (halved_of m)
      cut m l k best_in known =
          if_both (Left turns) (d.lt (nought parity) diff)
            (
              omega (arith, h, k, above),
              record {
                best_in = best_in;
                known = known;
                ordered = omega (arith, below, k);
                hi_in = omega (arith, k, w.hi_in);
              },
            )
            (
              omega (arith, h, l, below),
              record {
                best_in = best_in;
                known = known;
                ordered = omega (arith, above, l);
                hi_in = omega (arith, below, w.hi_in);
              },
            )

  bisected-Safe :
      (more : Search F → Result (Search F)) (s : Search F) (found : Option F)
      → Within parity n s
      → parity (middle parity s) ≡ ok found
      → ((diff : F)
          → parity (middle parity s) ≡ ok (some diff)
          → Safe (more (halved parity (middle parity s) s diff)) (Within parity n))
      → Safe (bisected parity more s found) (Within parity n)
  bisected-Safe more s none w k h = w
  bisected-Safe more s (some diff) w k h = h diff k

  bisect-Safe :
      (turns : ℕ) (s : Search F) → Left turns s → Safe (bisect parity turns s) (Within parity n)
  unfolding bisect
  bisect-Safe zero s (h, w) = let done : ltb (s.lo + 1) s.hi ≡ false = ground arith in rw done w
  bisect-Safe (suc turns) s (h, w) = elim (Bool-cases (ltb (s.lo + 1) s.hi)) [
    | inl e ↦
        let (above, below) = middle_between s (ltb→lt (s.lo + 1) s.hi e) in
        rw e (
          Safe-bind (λ found. parity (middle parity s) ≡ ok found) (Within parity n)
            (parity (middle parity s)) _ (reads (middle parity s) (omega (arith, below, w.hi_in)))
            λ found k. bisected-Safe (bisect parity turns) s found w k λ diff known.
              bisect-Safe turns (halved parity (middle parity s) s diff)
                (halved-Left turns (middle parity s) s diff known (above, below) (h, w)))
    | inr e ↦ rw e w
  ]

  pub search-Safe :
      (i : ℕ) (diff : F)
      → i < n
      → parity i ≡ ok (some diff)
      → Safe (search parity n (i, diff)) (Within parity n)
  unfolding search
  search-Safe i diff h k =
      Safe-bind (Within parity n) (Within parity n)
        (bracket parity n n 1 (record { best = i; best_diff = diff; lo = i; hi = i })) _
        (bracket-Safe n 1 (record { best = i; best_diff = diff; lo = i; hi = i }) (omega arith)
          (omega arith) (record { best_in = h; known = k; ordered = omega arith; hi_in = h }))
        λ s w. bisect-Safe n s (omega (arith, w.hi_in), w)

  or_else-Safe :
      (found : Option (ℕ × F)) (rest : Result (Option (ℕ × F)))
      → Placed found
      → Safe rest Placed
      → Safe (or_else parity found rest) Placed
  or_else-Safe (some (i, y)) rest a h = a
  or_else-Safe none rest a h = h

  pub usable_from-Safe : (i step left : ℕ) → i < n → Safe (usable_from parity n i step left) Placed
  unfolding usable_from
  usable_from-Safe i step zero h = tt
  usable_from-Safe i step (suc left) h =
      Safe-bind Placed Placed (probe parity (ltb (i + step) n) (i + step)) _
        (probe-Safe (ltb (i + step) n) (i + step) (ltb→lt (i + step) n))
        λ ahead a. or_else-Safe ahead _ a (
          Safe-bind Placed Placed (probe parity (not (step == 0) && leb step i) (i - step)) _
            (probe-Safe (not (step == 0) && leb step i) (i - step) λ _. omega (arith, h))
            λ behind b.
              or_else-Safe behind
                (if ltb 12 step then ok none else usable_from parity n i (suc step) left) b
                (if_both (λ (r : Result (Option (ℕ × F))). Safe r Placed) (ltb 12 step) tt
                  (usable_from-Safe i (suc step) left h)))
