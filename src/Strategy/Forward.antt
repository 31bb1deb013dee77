-- ===== src/Strategy/Forward.antt =====
-- The forward of an expiry by put-call parity: `Ctx::forward` of cpp/core/src/strategy.cpp, without its
-- cache. The years to the expiry, the exponential, the absolute value and the test for a finite double
-- are parameters.
use volforge.Prelude.{
  ℕ, zero, suc, ◌+◌, ◌-◌, ◌*◌, ◌/◌, Bool, true, false, not, ◌&&◌, ◌||◌, Option, none, some, List,
  [], ◌∷◌, ltb, leb, ◌==◌, if◌then◌else◌, length, get_elem?, pos, Error, Result, ok, err, ◌>>=◌,
  or_throw,
}
use volforge.Types.{Date, Price, InstrumentId, UnderlyingId, call, put}
use volforge.Instrument.{find_option}
use volforge.Market.{MarketView, Quote, quote, two_sided, mid}
use volforge.Double.{Double, to_double}
use volforge.Strategy.Chain.{strikes_in}

pub record Pricing (F : Type 0) : Type 0 where
  pub exp : F → F
  pub fabs : F → F
  pub is_finite : F → Bool

-- What the search has found: the strike whose parity is the least so far, and the bracket.
pub record Search (F : Type 0) : Type 0 where
  pub best : ℕ
  pub best_diff : F
  pub lo : ℕ
  pub hi : ℕ

module _ {F : Type 0} ⦃d : Double F⦄ where
  abbrev pub quoted_parity : Option Quote → Option Quote → Option F
  quoted_parity none pq = none
  quoted_parity (some cq) none = none
  quoted_parity (some cq) (some pq) =
      if not (two_sided cq) || not (two_sided pq)
      then none
      else some (d.sub (to_double (mid cq)) (to_double (mid pq)))

  abbrev pub parity_of : MarketView → Option InstrumentId → Option InstrumentId → Option F
  parity_of m none p = none
  parity_of m (some c) none = none
  parity_of m (some c) (some p) = quoted_parity (quote m c) (quote m p)

  -- `parity_at`: the call less the put at the strike of an index.
  unfoldable pub parity_at : MarketView → UnderlyingId → Date → List Price → ℕ → Result (Option F)
  parity_at m u expiry strikes i = do
    k ← or_throw (get_elem? strikes i) Error.out_of_bounds
    ok (
        parity_of m (find_option m.registry u expiry k call)
          (find_option m.registry u expiry k put))

module _ {F : Type 0} ⦃d : Double F⦄ ⦃x : Pricing F⦄ (parity : ℕ → Result (Option F)) where
  abbrev pub nought : F
  nought = d.of_int (pos 0)

  abbrev pub found_at : ℕ → Option F → Option (ℕ × F)
  found_at i none = none
  found_at i (some diff) = some (i, diff)

  abbrev pub probe : Bool → ℕ → Result (Option (ℕ × F))
  probe false i = ok none
  probe true i = do diff ← parity i; ok (found_at i diff)

  abbrev pub or_else : Option (ℕ × F) → Result (Option (ℕ × F)) → Result (Option (ℕ × F))
  or_else (some found) rest = ok (some found)
  or_else none rest = rest

  -- `usable_near`, from a step on; `left` steps are left.
  unfoldable pub usable_from : ℕ → ℕ → ℕ → ℕ → Result (Option (ℕ × F))
  usable_from n i step zero = ok none
  usable_from n i step (suc left) =
      let rest = usable_from n i (suc step) left in
      probe (ltb (i + step) n) (i + step) >>= λ ahead. or_else ahead (
        probe (not (step == 0) && leb step i) (i - step) >>= λ behind.
        or_else behind (if ltb 12 step then ok none else rest))

  abbrev pub nearer : ℕ → F → Search F → Search F
  nearer i diff s =
      if d.lt (x.fabs diff) (x.fabs s.best_diff) then record s { best = i; best_diff = diff } else s

  -- One turn of the loop that doubles outward, and whether there is another.
  abbrev pub raised : ℕ → Search F → Option F → Bool × Search F
  raised i s none = (false, s)
  raised i s (some diff) =
      (not (d.le diff nought), nearer i diff (record s { lo = s.best; hi = i }))

  abbrev pub lowered : ℕ → Search F → Option F → Bool × Search F
  lowered i s none = (false, s)
  lowered i s (some diff) =
      (not (d.le nought diff), nearer i diff (record s { lo = i; hi = s.best }))

  abbrev pub widen : ℕ → ℕ → Search F → Result (Bool × Search F)
  widen n stride s =
      if d.lt nought s.best_diff
      then (if leb n (s.best + stride)
          then ok (false, s)
          else parity (s.best + stride) >>= λ diff. ok (raised (s.best + stride) s diff))
      else if ltb s.best stride
      then ok (false, s)
      else parity (s.best - stride) >>= λ diff. ok (lowered (s.best - stride) s diff)

  -- The loop that doubles outward. Out of turns it gives a fault, as a read out of bounds does.
  unfoldable pub bracket : ℕ → ℕ → ℕ → Search F → Result (Search F)
  bracket n zero stride s = if leb n stride then ok s else err Error.out_of_bounds
  bracket n (suc turns) stride s =
      let more = bracket n turns (stride * 2) in
      if leb n stride then ok s else widen n stride s >>= λ w. if w.0 then more w.1 else ok w.1

  abbrev pub middle : Search F → ℕ
  middle s = s.lo + (s.hi - s.lo) / 2

  abbrev pub halved : ℕ → Search F → F → Search F
  halved i s diff =
      if d.lt nought diff
      then record (nearer i diff s) { lo = i }
      else record (nearer i diff s) { hi = i }

  -- What is done with the parity at the middle: without one, the loop ends.
  abbrev pub bisected : (Search F → Result (Search F)) → Search F → Option F → Result (Search F)
  bisected more s none = ok s
  bisected more s (some diff) = more (halved (middle s) s diff)

  -- The loop that bisects the bracket, likewise.
  unfoldable pub bisect : ℕ → Search F → Result (Search F)
  bisect zero s = if ltb (s.lo + 1) s.hi then err Error.out_of_bounds else ok s
  bisect (suc turns) s =
      let more = bisect turns in
      if ltb (s.lo + 1) s.hi then (parity (middle s) >>= λ found. bisected more s found) else ok s

  unfoldable pub search : ℕ → ℕ × F → Result (Search F)
  search n (i, diff) = do
    s ← bracket n n 1 (record { best = i; best_diff = diff; lo = i; hi = i })
    bisect n s

module _ {F : Type 0} ⦃d : Double F⦄ ⦃x : Pricing F⦄ where
  abbrev pub finite_forward : F → Option F
  finite_forward fwd =
      if not (d.lt (d.of_int (pos 0)) fwd) || not (x.is_finite fwd) then none else some fwd

  abbrev pub forward_from :
      (ℕ → Result (Option F)) → F → List Price → Option (ℕ × F) → Result (Option F)
  forward_from parity growth strikes none = ok none
  forward_from parity growth strikes (some anchor) = do
    s ← search parity (length strikes) anchor
    k ← or_throw (get_elem? strikes s.best) Error.out_of_bounds
    ok (finite_forward (d.add (to_double k) (d.mul growth s.best_diff)))

  abbrev pub forward_in : (ℕ → Result (Option F)) → F → List Price → Result (Option F)
  forward_in parity growth [] = ok none
  forward_in parity growth (k ∷ ks) = do
    anchor ← usable_from parity (length (k ∷ ks)) (length (k ∷ ks) / 2) 0 (length (k ∷ ks))
    forward_from parity growth (k ∷ ks) anchor

  unfoldable pub forward : MarketView → UnderlyingId → Date → F → F → Result (Option F)
  forward m u expiry years rate =
      if not (d.lt (d.of_int (pos 0)) years)
      then ok none
      else forward_in (parity_at m u expiry (strikes_in m u expiry m.registry.specs))
          (x.exp (d.mul rate years)) (strikes_in m u expiry m.registry.specs)
