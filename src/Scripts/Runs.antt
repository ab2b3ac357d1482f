-- ===== src/Scripts/Runs.antt =====
-- Every run of the validator (scriptval.go), whatever the goroutines do first.
use btcchain.Common.{
  ℕ, zero, suc, ◌+◌, ◌*◌, ◌≤◌, ◌<◌, ◌≡◌, refl, sym, subst, ◌∙◌, ap, arith, Option-cases, Option,
  none, some, List, [], ◌∷◌, ◌++◌, length, get_elem?, All, Result, ok, err, Result-cases, ◌⊎◌, inl,
  inr,
}
use btcchain.Scripts.{
  ValidateItem, Validator, start, Step, send, receive, fail, finish, Reach, here, next,
  max_go_routines,
}

module _ {A : Type 0} (P : A → Type 0) where
  All-insert :
      (before after : List A) (a : A)
      → P a
      → All P (before ++ after)
      → All P (before ++ (a ∷ after))
  All-insert [] after a p all = (p, all)
  All-insert (b ∷ before) after a p (q, all) = (q, All-insert before after a p all)

  All-remove :
      (before after : List A) (a : A)
      → All P (before ++ (a ∷ after))
      → P a × All P (before ++ after)
  All-remove [] after a (p, all) = (p, all)
  All-remove (b ∷ before) after a (q, all) =
      let (p, rest) = All-remove before after a all in (p, (q, rest))

length-insert :
    {A : Type 0} (before after : List A) (a : A)
    → length (before ++ (a ∷ after)) ≡ suc (length (before ++ after))
length-insert [] after a = refl
length-insert (b ∷ before) after a = ap suc (length-insert before after a)

module _ (validate : ValidateItem → Result (Unit {0})) (items : List ValidateItem) where
  abbrev pub Passes : ValidateItem → Type 0
  Passes item = validate item ≡ ok tt

  abbrev IsOwn : ValidateItem → Type 0
  IsOwn item = (i : ℕ) × (get_elem? items i ≡ some item)

  -- What a result of Validate says of the items.
  abbrev pub Justified : Result (Unit {0}) → Type 0
  Justified (ok _) = All Passes items
  Justified (err e) =
      (item : ValidateItem) × (i : ℕ) × (get_elem? items i ≡ some item) × (validate item ≡ err e)

  abbrev JustifiedReturn : Option (Result (Unit {0})) → Type 0
  JustifiedReturn none = Unit {0}
  JustifiedReturn (some r) = Justified r

  abbrev IsGoing : Option (Result (Unit {0})) → Type 0
  IsGoing none = Unit {0}
  IsGoing (some _) = ⊥

  record Inv (v : Validator) : Type 0 where
    counted : v.processed_items + length v.unsent + length v.held ≡ length items
    unsent_own : All IsOwn v.unsent
    held_own : All IsOwn v.held
    left : IsGoing v.returned → All Passes v.unsent → All Passes v.held → All Passes items
    justified : JustifiedReturn v.returned

  All-of_none : (P : ValidateItem → Type 0) (l : List ValidateItem) → length l ≡ 0 → All P l
  All-of_none P [] h = tt
  All-of_none P (x ∷ l) h = absurd (omega arith)

  Step-Inv : {v w : Validator} → Step validate (length items) v w → Inv v → Inv w
  Step-Inv (send item rest held idle processed) inv = record {
    counted = omega (arith, inv.counted);
    unsent_own = inv.unsent_own.1;
    held_own = (inv.unsent_own.0, inv.held_own);
    left = λ g u h. inv.left g (h.0, u) h.1;
    justified = tt;
  }
  Step-Inv (receive item unsent before after idle processed passes) inv = record {
    counted = omega (arith, inv.counted, length-insert before after item);
    unsent_own = inv.unsent_own;
    held_own = (All-remove IsOwn before after item inv.held_own).1;
    left = λ g u h. inv.left g u (All-insert Passes before after item passes h);
    justified = tt;
  }
  Step-Inv (fail item unsent before after idle processed e fails) inv =
      let ((i, at), rest) = All-remove IsOwn before after item inv.held_own in
      record {
        counted = omega (arith, inv.counted, length-insert before after item);
        unsent_own = inv.unsent_own;
        held_own = rest;
        left = λ g. absurd g;
        justified = (item, i, at, fails);
      }
  Step-Inv (finish unsent held idle processed done) inv = record {
    counted = inv.counted;
    unsent_own = inv.unsent_own;
    held_own = inv.held_own;
    left = λ g. absurd g;
    justified =
        inv.left tt (All-of_none Passes unsent (omega (arith, inv.counted)))
          (All-of_none Passes held (omega (arith, inv.counted)));
  }

  IsOwn-All :
      (l : List ValidateItem) (offset : ℕ)
      → ((i : ℕ) (item : ValidateItem)
          → get_elem? l i ≡ some item
          → get_elem? items (offset + i) ≡ some item)
      → All IsOwn l
  IsOwn-All [] offset h = tt
  IsOwn-All (x ∷ l) offset h = (
    (offset + 0, h 0 x refl),
    IsOwn-All l (suc offset) λ i item e.
        let q : suc offset + i ≡ offset + suc i = omega arith in
        ap (get_elem? items) q ∙ h (suc i) item e,
  )

  Inv-start : (cpus : ℕ) → Inv (start cpus items)
  unfolding start
  Inv-start cpus = record {
    counted = omega arith;
    unsent_own =
        IsOwn-All items 0 λ i item e. let q : 0 + i ≡ i = omega arith in ap (get_elem? items) q ∙ e;
    held_own = tt;
    left = λ _ u _. u;
    justified = tt;
  }

  Reach-Inv :
      (cpus : ℕ) {v : Validator} → Reach validate (length items) (start cpus items) v → Inv v
  Reach-Inv cpus here = Inv-start cpus
  Reach-Inv cpus (next r st) = Step-Inv st (Reach-Inv cpus r)

  abbrev rest_of : Option (Result (Unit {0})) → ℕ
  rest_of none = 1
  rest_of (some _) = 0

  -- What is left to do; it falls in each step.
  abbrev work : Validator → ℕ
  work v = 2 * length v.unsent + length v.held + rest_of v.returned

  Step-work : {v w : Validator} → Step validate (length items) v w → work w < work v
  Step-work (send item rest held idle processed) = omega arith
  Step-work (receive item unsent before after idle processed passes) =
      omega (arith, length-insert before after item)
  Step-work (fail item unsent before after idle processed e fails) =
      omega (arith, length-insert before after item)
  Step-work (finish unsent held idle processed done) = omega arith

  abbrev pub steps : {v w : Validator} → Reach validate (length items) v w → ℕ
  steps here = 0
  steps (next r st) = suc (steps r)

  steps-work : {v w : Validator} (r : Reach validate (length items) v w) → steps r + work w ≤ work v
  steps-work here = omega arith
  steps-work (next r st) = omega (arith, steps-work r, Step-work st)

  -- The handlers are as many as were started, and at least one where there is an item.
  abbrev Staffed : ℕ → Validator → Type 0
  Staffed cpus v = IsGoing v.returned → v.idle + length v.held ≡ max_go_routines cpus (length items)

  Step-Staffed :
      (cpus : ℕ) {v w : Validator}
      → Step validate (length items) v w
      → Staffed cpus v
      → Staffed cpus w
  Step-Staffed cpus (send item rest held idle processed) h = λ g. omega (arith, h g)
  Step-Staffed cpus (receive item unsent before after idle processed passes) h =
      λ g. omega (arith, h g, length-insert before after item)
  Step-Staffed cpus (fail item unsent before after idle processed e fails) h = λ g. absurd g
  Step-Staffed cpus (finish unsent held idle processed done) h = λ g. absurd g

  Reach-Staffed :
      (cpus : ℕ) {v : Validator}
      → Reach validate (length items) (start cpus items) v
      → Staffed cpus v
  unfolding start
  Reach-Staffed cpus here = λ _. omega arith
  Reach-Staffed cpus (next r st) = Step-Staffed cpus st (Reach-Staffed cpus r)

  pub some_routine : (cpus n : ℕ) → 0 < n → 0 < max_go_routines cpus n
  unfolding max_go_routines
  some_routine cpus n h = ground arith

  -- What Validate may have returned is right: success only where each item passes, and an error only
  -- where it is that of an item.
  pub validate-Justified :
      (cpus : ℕ) {v : Validator} {r : Result (Unit {0})}
      → Reach validate (length items) (start cpus items) v
      → v.returned ≡ some r
      → Justified r
  validate-Justified cpus run e = subst JustifiedReturn e (Reach-Inv cpus run).justified

  receive_one :
      (item : ValidateItem) (unsent after : List ValidateItem) (idle processed : ℕ)
      → (w : Validator) × Step validate
          (length items)
          (record {
            unsent = unsent;
            held = item ∷ after;
            idle = idle;
            processed_items = processed;
            returned = none;
          })
          w
  receive_one item unsent after idle processed = elim (Result-cases (validate item)) [
    | inl (u, e) ↦ (_, receive item unsent [] after idle processed e)
    | inr (x, e) ↦ (_, fail item unsent [] after idle processed x e)
  ]

  can_go_on :
      (unsent held : List ValidateItem) (idle processed : ℕ)
      → processed + length unsent + length held ≡ length items
      → (0 < length unsent → 0 < idle + length held)
      → (w : Validator) × Step validate
          (length items)
          (record {
            unsent = unsent;
            held = held;
            idle = idle;
            processed_items = processed;
            returned = none;
          })
          w
  can_go_on unsent (item ∷ held) idle processed counted staffed =
      receive_one item unsent held idle processed
  can_go_on [] [] idle processed counted staffed = (_, finish [] [] idle processed (omega arith))
  can_go_on (item ∷ rest) [] (suc idle) processed counted staffed =
      (_, send item rest [] idle processed)
  can_go_on (item ∷ rest) [] zero processed counted staffed =
      absurd (omega (arith, staffed (omega arith)))

  -- Validate never stands still and always ends: in each state that it can reach, it has returned or
  -- has a step, and after n items it has made at most 2 * n + 1 steps.
  pub validate_ends :
      (cpus : ℕ) {v : Validator} (run : Reach validate (length items) (start cpus items) v)
      → (((r : Result (Unit {0})) × (v.returned ≡ some r))
          ⊎ ((w : Validator) × Step validate (length items) v w))
        × (steps run ≤ 2 * length items + 1)
  unfolding start
  validate_ends cpus {v} run = (
    elim (Option-cases v.returned) [
      | inr (r, e) ↦ inl (r, e)
      | inl e ↦ inr (
          subst (λ o. (w : Validator) × Step validate (length items) (record v { returned = o }) w)
            (sym e)
            (can_go_on v.unsent v.held v.idle v.processed_items (Reach-Inv cpus run).counted λ h.
              omega (
                arith,
                Reach-Staffed cpus run (subst IsGoing (sym e) tt),
                some_routine cpus (length items) (omega (arith, (Reach-Inv cpus run).counted)),
              )))
    ],
    omega (arith, steps-work run),
  )
