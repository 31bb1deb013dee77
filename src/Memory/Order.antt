-- ===== src/Memory/Order.antt =====
-- Sorting events does not depend on the order in which they come.
use volforge.Prelude.{
  ◌<◌, ◌≡◌, refl, sym, ap, ◌∙◌, subst, ◌⊎◌, inl, inr, true, false, List, [], ◌∷◌, ◌++◌, arith,
  if◌then◌else◌, Bool-cases, All, ◌<ℤ◌, eqb_ℤ, eqb_ℤ_iff,
}
use volforge.Market.{Event}
use volforge.Memory.{earlier, insert_event, insert_all}

pub earlier-asym : (a b : Event) → earlier a b ≡ true → earlier b a ≡ false
unfolding earlier
earlier-asym a b h = ground (arith, eqb_ℤ_iff a.ts b.ts, eqb_ℤ_iff a.instrument b.instrument)

-- The order on places, spelled out.
abbrev RowBefore : Event → Event → Type 0
RowBefore a b = (a.instrument ≡ b.instrument) × (a.row < b.row)

abbrev PlaceBefore : Event → Event → Type 0
PlaceBefore a b = (a.instrument <ℤ b.instrument) ⊎ RowBefore a b

abbrev Before : Event → Event → Type 0
Before a b = (a.ts <ℤ b.ts) ⊎ ((a.ts ≡ b.ts) × PlaceBefore a b)

earlier-Before : (a b : Event) → earlier a b ≡ true → Before a b
unfolding earlier
earlier-Before a b h = elim (Bool-cases (eqb_ℤ a.ts b.ts)) [
  | inr e ↦ inl (ground arith)
  | inl e ↦
      let same = (eqb_ℤ_iff a.ts b.ts).0 e in
      elim (Bool-cases (eqb_ℤ a.instrument b.instrument)) [
        | inr i ↦ inr (same, inl (ground arith))
        | inl i ↦ inr (same, inr ((eqb_ℤ_iff a.instrument b.instrument).0 i, ground arith))
      ]
]

Before-earlier : (a b : Event) → Before a b → earlier a b ≡ true
unfolding earlier
Before-earlier a b (inl h) = ground arith
Before-earlier a b (inr (e, inl h)) = let e' = (eqb_ℤ_iff a.ts b.ts).1 e in rw e' (ground arith)
Before-earlier a b (inr (e, inr (i, h))) =
    let e' = (eqb_ℤ_iff a.ts b.ts).1 e in
    let i' = (eqb_ℤ_iff a.instrument b.instrument).1 i in rw (e', i') (ground arith)

PlaceBefore-trans : (a b c : Event) → PlaceBefore a b → PlaceBefore b c → PlaceBefore a c
PlaceBefore-trans a b c (inl h) (inl k) = inl (omega arith)
PlaceBefore-trans a b c (inl h) (inr (k, _)) = inl (subst (λ x. a.instrument <ℤ x) k h)
PlaceBefore-trans a b c (inr (h, _)) (inl k) = inl (subst (λ x. x <ℤ c.instrument) (sym h) k)
PlaceBefore-trans a b c (inr (h, i)) (inr (k, j)) = inr (h ∙ k, omega arith)

Before-trans : (a b c : Event) → Before a b → Before b c → Before a c
Before-trans a b c (inl h) (inl k) = inl (omega arith)
Before-trans a b c (inl h) (inr (k, _)) = inl (subst (λ x. a.ts <ℤ x) k h)
Before-trans a b c (inr (h, _)) (inl k) = inl (subst (λ x. x <ℤ c.ts) (sym h) k)
Before-trans a b c (inr (h, i)) (inr (k, j)) = inr (h ∙ k, PlaceBefore-trans a b c i j)

earlier_trans : (a b c : Event) → earlier a b ≡ true → earlier b c ≡ true → earlier a c ≡ true
earlier_trans a b c h k =
    Before-earlier a c (Before-trans a b c (earlier-Before a b h) (earlier-Before b c k))

earlier-total : (a b : Event) → earlier a b ≡ false → earlier b a ≡ false → a ≡ b
unfolding earlier
earlier-total a b h k =
    let t : a.ts ≡ b.ts = ground (arith, eqb_ℤ_iff a.ts b.ts, eqb_ℤ_iff b.ts a.ts) in
    let t' = (eqb_ℤ_iff a.ts b.ts).1 t in
    let u' = (eqb_ℤ_iff b.ts a.ts).1 (sym t) in
    let i : a.instrument ≡ b.instrument =
      ground
        (arith, t', u', eqb_ℤ_iff a.instrument b.instrument, eqb_ℤ_iff b.instrument a.instrument) in
    let i' = (eqb_ℤ_iff a.instrument b.instrument).1 i in
    let j' = (eqb_ℤ_iff b.instrument a.instrument).1 (sym i) in
    let r : a.row ≡ b.row = ground (arith, t', u', i', j') in
    ap (λ x. record a { ts = x }) t
    ∙ (ap (λ x. record a { ts = b.ts; instrument = x }) i ∙ ap (λ x. record b { row = x }) r)

insert-skip :
    (e x : Event) (xs : List Event)
    → earlier x e ≡ true
    → insert_event e (x ∷ xs) ≡ x ∷ insert_event e xs
unfolding insert_event
insert-skip e x xs h = rw h refl

insert-here :
    (e x : Event) (xs : List Event) → earlier x e ≡ false → insert_event e (x ∷ xs) ≡ e ∷ x ∷ xs
unfolding insert_event
insert-here e x xs h = rw h refl

-- Where the head of the list has none before it, insertion puts the event in front.
pub insert-first :
    (e : Event) (xs : List Event) → All (λ x. earlier x e ≡ false) xs → insert_event e xs ≡ e ∷ xs
unfolding insert_event
insert-first e [] h = refl
insert-first e (x ∷ xs) (h, _) = insert-here e x xs h

insert-swap :
    (a b : Event) (xs : List Event)
    → earlier a b ≡ true
    → insert_event a (insert_event b xs) ≡ insert_event b (insert_event a xs)
unfolding insert_event
insert-swap a b [] h = insert-here a b [] (earlier-asym a b h) ∙ sym (insert-skip b a [] h)
insert-swap a b (x ∷ xs) h = elim (Bool-cases (earlier x a)) [
  | inl xa ↦
      let xb = earlier_trans x a b xa h in
      ap (insert_event a) (insert-skip b x xs xb)
      ∙ (insert-skip a x (insert_event b xs) xa
          ∙ (ap (λ (ys : List Event). x ∷ ys) (insert-swap a b xs h)
              ∙ (sym (insert-skip b x (insert_event a xs) xb)
                  ∙ sym (ap (insert_event b) (insert-skip a x xs xa)))))
  | inr xa ↦
      let first : insert_event b (insert_event a (x ∷ xs)) ≡ a ∷ insert_event b (x ∷ xs) =
        ap (insert_event b) (insert-here a x xs xa) ∙ insert-skip b a (x ∷ xs) h in
      elim (Bool-cases (earlier x b)) [
        | inl xb ↦
            let ib = insert-skip b x xs xb in
            ap (insert_event a) ib
            ∙ (insert-here a x (insert_event b xs) xa
                ∙ sym (first ∙ ap (λ (ys : List Event). a ∷ ys) ib))
        | inr xb ↦
            let ib = insert-here b x xs xb in
            ap (insert_event a) ib
            ∙ (insert-here a b (x ∷ xs) (earlier-asym a b h)
                ∙ sym (first ∙ ap (λ (ys : List Event). a ∷ ys) ib))
      ]
]

insert_comm :
    (a b : Event) (xs : List Event)
    → insert_event a (insert_event b xs) ≡ insert_event b (insert_event a xs)
insert_comm a b xs = elim (Bool-cases (earlier a b)) [
  | inl h ↦ insert-swap a b xs h
  | inr h ↦ elim (Bool-cases (earlier b a)) [
    | inl k ↦ sym (insert-swap b a xs k)
    | inr k ↦
        let e = earlier-total a b h k in
        ap (λ x. insert_event x (insert_event b xs)) e
        ∙ ap (λ x. insert_event b (insert_event x xs)) (sym e)
  ]
]

insert-insert_all :
    (e : Event) (es sorted : List Event)
    → insert_event e (insert_all es sorted) ≡ insert_all es (insert_event e sorted)
unfolding insert_all
insert-insert_all e [] sorted = refl
insert-insert_all e (x ∷ es) sorted =
    insert_comm e x (insert_all es sorted) ∙ ap (insert_event x) (insert-insert_all e es sorted)

pub insert_all_comm :
    (xs ys sorted : List Event)
    → insert_all xs (insert_all ys sorted) ≡ insert_all ys (insert_all xs sorted)
unfolding insert_all
insert_all_comm [] ys sorted = refl
insert_all_comm (x ∷ xs) ys sorted =
    ap (insert_event x) (insert_all_comm xs ys sorted)
    ∙ insert-insert_all x ys (insert_all xs sorted)

pub insert_all-append :
    (xs ys sorted : List Event)
    → insert_all (xs ++ ys) sorted ≡ insert_all xs (insert_all ys sorted)
unfolding insert_all
insert_all-append [] ys sorted = refl
insert_all-append (x ∷ xs) ys sorted = ap (insert_event x) (insert_all-append xs ys sorted)

module _ (P : Event → Type 0) where
  insert-All : (e : Event) (xs : List Event) → P e → All P xs → All P (insert_event e xs)
  unfolding insert_event
  insert-All e [] h k = (h, tt)
  insert-All e (x ∷ xs) h (k, ks) =
      elim (earlier x e) as (λ b. All P (if b then x ∷ insert_event e xs else e ∷ x ∷ xs)) [
        | true ↦ (k, insert-All e xs h ks)
        | false ↦ (h, (k, ks))
      ]

  pub insert_all-All :
      (es sorted : List Event) → All P es → All P sorted → All P (insert_all es sorted)
  unfolding insert_all
  insert_all-All [] sorted h k = k
  insert_all-All (e ∷ es) sorted (h, hs) k =
      insert-All e (insert_all es sorted) h (insert_all-All es sorted hs k)
