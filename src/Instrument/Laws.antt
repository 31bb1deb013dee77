-- ===== src/Instrument/Laws.antt =====
-- The registry's invariant and what its operations promise.
use volforge.Instrument.{kind_index}
use volforge.Instrument.{Price}
use volforge.Instrument.{Date}
use volforge.Instrument.{UnderlyingId}
use volforge.Instrument.{as_id}
use mathlib.Core.Option.{some-injective}
use volforge.Prelude.{
  ℕ, ◌≡◌, refl, sym, ap, ◌∙◌, subst, inl, inr, none, some, List, [], ◌∷◌, ◌++◌, arith, Bool-cases,
  Option-cases, length, get_elem?, pos, negsuc, Error, Result, ok, or_throw, get_elem?-append_left,
  get_elem?-snoc, get_elem?-snoc_cases,
}
use volforge.Types.{Right, InstrumentId, option}
use volforge.Instrument.{
  InstrumentRegistry, InstrumentSpec, Key, key_eq, key_of, find_key, add, spec, find_option,
  right_index,
}
use volforge.Instrument.Keys.{key_eq→eq, find_key_head}

-- The index by key and the list of specs describe one another.
pub record IsValid (r : InstrumentRegistry) : Type 0 where
  pub mapped :
      (k : Key) (i : ℕ)
      → find_key k r.by_key ≡ some i
      → (s : InstrumentSpec) × (get_elem? r.specs i ≡ some s) × (key_of s ≡ k)
  pub listed :
      (i : ℕ) (s : InstrumentSpec)
      → get_elem? r.specs i ≡ some s
      → (find_key (key_of s) r.by_key ≡ some i) × (s.id ≡ pos i)

-- `add` on a known key and on a new one.
pub add_known :
    (r : InstrumentRegistry) (s : InstrumentSpec) (i : ℕ)
    → find_key (key_of s) r.by_key ≡ some i
    → add r s ≡ (r, pos i)
unfolding add
add_known r s i h = rw (h, add)

abbrev pub extended : InstrumentRegistry → InstrumentSpec → InstrumentRegistry
extended r s = record r {
  specs = r.specs ++ (record s { id = pos (length r.specs) } ∷ []);
  by_key = (key_of s, length r.specs) ∷ r.by_key;
}

pub add_new :
    (r : InstrumentRegistry) (s : InstrumentSpec)
    → find_key (key_of s) r.by_key ≡ none
    → add r s ≡ (extended r s, pos (length r.specs))
unfolding add
add_new r s h = rw (h, add)

pub key_of-stored :
    (s : InstrumentSpec) (i : InstrumentId) → key_of (record s { id = i }) ≡ key_of s
unfolding key_of
key_of-stored s i = refl

find_key_tail :
    (k j : Key) (i : ℕ) (m : List (Key × ℕ)) (n : ℕ)
    → find_key k m ≡ some n
    → find_key j m ≡ none
    → find_key k ((j, i) ∷ m) ≡ some n
find_key_tail k j i m n h miss = elim (Bool-cases (key_eq j k)) [
  | inl e ↦ cc (h, miss, ap (λ (x : Key). find_key x m) (key_eq→eq j k e))
  | inr e ↦ unfold find_key in rw e h
]

extended-IsValid :
    (r : InstrumentRegistry) (s : InstrumentSpec)
    → IsValid r
    → find_key (key_of s) r.by_key ≡ none
    → IsValid (extended r s)
extended-IsValid r s v miss = record { mapped = mapped'; listed = listed' }
  where
    stored : InstrumentSpec
    stored = record s { id = pos (length r.specs) }

    mapped' :
        (k : Key) (i : ℕ)
        → find_key k (extended r s).by_key ≡ some i
        → (t : InstrumentSpec) × (get_elem? (extended r s).specs i ≡ some t) × (key_of t ≡ k)
    mapped' k i h = elim (Bool-cases (key_eq (key_of s) k)) [
      | inl e ↦
          let same = key_eq→eq (key_of s) k e in
          let here : find_key k (extended r s).by_key ≡ some (length r.specs) =
            rw (← same) (find_key_head (key_of s) (length r.specs) r.by_key) in
          let at_end : length r.specs ≡ i = some-injective _ _ (sym here ∙ h) in
          (
            stored,
            rw (← at_end) (get_elem?-snoc r.specs stored),
            key_of-stored s (pos (length r.specs)) ∙ same,
          )
      | inr e ↦
          let (t, at_i, key) = v.mapped k i (unfold find_key in rw e at h) in
          (t, get_elem?-append_left r.specs (stored ∷ []) i at_i, key)
    ]

    listed' :
        (i : ℕ) (t : InstrumentSpec)
        → get_elem? (extended r s).specs i ≡ some t
        → (find_key (key_of t) (extended r s).by_key ≡ some i) × (t.id ≡ pos i)
    listed' i t h = elim (get_elem?-snoc_cases r.specs stored i h) [
      | inl old ↦
          let (found, own) = v.listed i t old in
          (find_key_tail (key_of t) (key_of s) (length r.specs) r.by_key i found miss, own)
      | inr (at_end, same) ↦
          rw (← same, at_end)
            (
              rw (key_of-stored s (pos (length r.specs)))
                  (find_key_head (key_of s) (length r.specs) r.by_key),
              refl,
            )
    ]

-- Adding an instrument keeps the registry valid.
pub add-IsValid : (r : InstrumentRegistry) (s : InstrumentSpec) → IsValid r → IsValid (add r s).0
add-IsValid r s v = elim (Option-cases (find_key (key_of s) r.by_key)) [
  | inl miss ↦ rw (add_new r s miss) (extended-IsValid r s v miss)
  | inr (i, hit) ↦ rw (add_known r s i hit) v
]

spec_stored :
    (r : InstrumentRegistry) (i : ℕ) {t : InstrumentSpec}
    → get_elem? r.specs i ≡ some t
    → spec r (pos i) ≡ ok t
unfolding spec
spec_stored r i h = rw h

spec_index :
    (r : InstrumentRegistry) (id : InstrumentId) (t : InstrumentSpec)
    → spec r id ≡ ok t
    → (i : ℕ) × (id ≡ pos i) × (get_elem? r.specs i ≡ some t)
unfolding spec
spec_index r (pos i) t h = (i, refl, ground arith)
spec_index r (negsuc i) t h = cc

spec_grows :
    (r : InstrumentRegistry) (s : InstrumentSpec) (id : InstrumentId) (t : InstrumentSpec)
    → spec r id ≡ ok t
    → spec (extended r s) id ≡ ok t
unfolding spec
spec_grows r s (negsuc _) t h = cc
spec_grows r s (pos i) t h = elim (Option-cases (get_elem? r.specs i)) [
  | inl e ↦ cc (h, ap {B = Result InstrumentSpec} (λ o. or_throw o Error.out_of_range) e)
  | inr (u, e) ↦
      rw (get_elem?-append_left r.specs (record s { id = pos (length r.specs) } ∷ []) i e)
        (rw e at h)
]

-- What `add` promises of its answer: the id leads to a spec with the key of `s`; adding `s` again
-- changes nothing and answers the same id; every id handed out before keeps its spec.
abbrev pub Answers :
    InstrumentRegistry → InstrumentSpec → InstrumentRegistry × InstrumentId → Type 0
Answers r s (r', id) =
    ((t : InstrumentSpec) × (spec r' id ≡ ok t) × (key_of t ≡ key_of s) × (t.id ≡ id))
    × (add r' s ≡ (r', id))
    × ((old : InstrumentId) (t : InstrumentSpec) → spec r old ≡ ok t → spec r' old ≡ ok t)

known-Answers :
    (r : InstrumentRegistry) (s : InstrumentSpec) (i : ℕ)
    → IsValid r
    → find_key (key_of s) r.by_key ≡ some i
    → Answers r s (r, pos i)
known-Answers r s i v hit =
    let (t, at_i, key) = v.mapped (key_of s) i hit in
    ((t, spec_stored r i at_i, key, (v.listed i t at_i).1), add_known r s i hit, λ old u h. h)

new-Answers :
    (r : InstrumentRegistry) (s : InstrumentSpec) → Answers r s (extended r s, pos (length r.specs))
new-Answers r s =
    let stored : InstrumentSpec = record s { id = pos (length r.specs) } in
    (
      (
        stored,
        spec_stored (extended r s) (length r.specs) (get_elem?-snoc r.specs stored),
        key_of-stored s (pos (length r.specs)),
        refl,
      ),
      add_known (extended r s) s (length r.specs)
          (find_key_head (key_of s) (length r.specs) r.by_key),
      spec_grows r s,
    )

-- `add` on a valid registry is idempotent, answers an id whose spec has the key that was asked for,
-- and leaves the spec of every earlier id as it was.
pub add-Answers : (r : InstrumentRegistry) (s : InstrumentSpec) → IsValid r → Answers r s (add r s)
add-Answers r s v = elim (Option-cases (find_key (key_of s) r.by_key)) [
  | inl miss ↦ rw (add_new r s miss) (new-Answers r s)
  | inr (i, hit) ↦ rw (add_known r s i hit) (known-Answers r s i v hit)
]

option_key : (t : InstrumentSpec) → Key
option_key t = record {
  underlying = t.underlying;
  kind = pos 2;
  expiry = t.expiry;
  strike = t.strike;
  right = right_index t.right;
}

key_of-option : (t : InstrumentSpec) → t.kind ≡ option → key_of t ≡ option_key t
unfolding key_of option_key
key_of-option t k = ground arith

-- In a valid registry every registered option is found under its own id by its underlying, expiry,
-- strike and right.
pub find_option_registered :
    (r : InstrumentRegistry) (id : InstrumentId) (t : InstrumentSpec)
    → IsValid r
    → t.kind ≡ option
    → spec r id ≡ ok t
    → find_option r t.underlying t.expiry t.strike t.right ≡ some id
unfolding find_option option_key
find_option_registered r id t v k h =
    let (i, same, at_i) = spec_index r id t h in
    rw (same, (rw (key_of-option t k) at ((v.listed i t at_i).0)))

-- In a valid registry two ids whose specs have one key are one id.
pub spec-injective :
    (r : InstrumentRegistry) (a b : InstrumentId) (s t : InstrumentSpec)
    → IsValid r
    → spec r a ≡ ok s
    → spec r b ≡ ok t
    → key_of s ≡ key_of t
    → a ≡ b
spec-injective r a b s t v hs ht key =
    let (i, ai, si) = spec_index r a s hs in
    let (j, bj, tj) = spec_index r b t ht in
    let si' = (v.listed i s si).0 in
    let tj' = (v.listed j t tj).0 in
    let same : i ≡ j =
      some-injective _ _ (sym si' ∙ (ap (λ (x : Key). find_key x r.by_key) key ∙ tj')) in
    ai ∙ (ap pos same ∙ sym bj)

-- The key that `find_option` looks up.
abbrev pub series_key : UnderlyingId → Date → Price → Right → Key
series_key u expiry strike right = record {
  underlying = u;
  kind = kind_index option;
  expiry = expiry;
  strike = strike;
  right = right_index right;
}

-- What `find_option` finds is a contract of the key that it looked up.
pub find_option-key :
    (r : InstrumentRegistry) (u : UnderlyingId) (expiry : Date) (strike : Price) (right : Right)
    → {id : InstrumentId} → IsValid r
    → find_option r u expiry strike right ≡ some id
    → (s : InstrumentSpec) × (spec r id ≡ ok s) × (key_of s ≡ series_key u expiry strike right)
unfolding find_option as_id
find_option-key r u expiry strike right {id} v h =
    elim (Option-cases (find_key (series_key u expiry strike right) r.by_key)) [
      | inl miss ↦ absurd (none-ne (sym (ap as_id miss) ∙ h))
      | inr (i, hit) ↦
          let (s, stored, key) = v.mapped (series_key u expiry strike right) i hit in
          let same : pos i ≡ id = some-injective _ _ (sym (ap as_id hit) ∙ h) in
          (s, subst (λ x. spec r x ≡ ok s) same (spec_stored r i stored), key)
    ]
  where
    none-ne : {x : InstrumentId} → none ≡ some x → ⊥
    none-ne e = cc
