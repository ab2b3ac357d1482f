-- ===== src/Orphans/Index.antt =====
-- The two maps of the orphan pool list the same orphans.
use btcchain.Common.{
  ℕ, ◌≡◌, ◌≢◌, refl, sym, ◌∙◌, ap, subst, arith, ◌⊎◌, inl, inr, false, ◌==◌, ltb, Bool-cases,
  ==_iff, Option, none, some, List, [], ◌∷◌, ◌++◌, All, lookup, insert, remove, lookup-remove,
  lookup-insert, if◌then◌else◌, if_true, if_false, some_inj, none_not_some,
}
use btcchain.Orphans.{
  OrphanBlock, OrphanPool, orphan_hash, orphan_prev, waiting, without, set_waiting,
  remove_orphan_block, older, sweep, insert_orphan,
}

abbrev pub Has : OrphanBlock → List OrphanBlock → Type 0
Has o [] = ⊥
Has o (x ∷ xs) = (x ≡ o) ⊎ Has o xs

Has-append_left : (o : OrphanBlock) (xs ys : List OrphanBlock) → Has o xs → Has o (xs ++ ys)
Has-append_left o [] ys h = elim h [ ]
Has-append_left o (x ∷ xs) ys (inl e) = inl e
Has-append_left o (x ∷ xs) ys (inr h) = inr (Has-append_left o xs ys h)

Has-append_last : (o : OrphanBlock) (xs : List OrphanBlock) → Has o (xs ++ (o ∷ []))
Has-append_last o [] = inl refl
Has-append_last o (x ∷ xs) = inr (Has-append_last o xs)

Has-append_cases :
    (o last : OrphanBlock) (xs : List OrphanBlock)
    → Has o (xs ++ (last ∷ []))
    → Has o xs ⊎ (last ≡ o)
Has-append_cases o last [] (inl e) = inr e
Has-append_cases o last [] (inr h) = elim h [ ]
Has-append_cases o last (x ∷ xs) (inl e) = inl (inl e)
Has-append_cases o last (x ∷ xs) (inr h) = elim (Has-append_cases o last xs h) [
  | inl k ↦ inl (inr k)
  | inr e ↦ inr e
]

ne_of_test : (a b : ℕ) → (a == b) ≡ false → a ≢ b
ne_of_test a b h e = ground arith

test_of_ne : (a b : ℕ) → a ≢ b → (a == b) ≡ false
test_of_ne a b h = ground arith

-- What `without` keeps.
Has-without :
    (hash : ℕ) (o : OrphanBlock) (xs : List OrphanBlock)
    → orphan_hash o ≢ hash
    → Has o xs
    → Has o (without hash xs)
unfolding without
Has-without hash o [] other h = elim h [ ]
Has-without hash o (x ∷ xs) other (inl e) = elim (Bool-cases (orphan_hash x == hash)) [
  | inl same ↦ absurd (other (ap orphan_hash (sym e) ∙ (==_iff (orphan_hash x) hash).0 same))
  | inr b ↦ rw b (inl e)
]
Has-without hash o (x ∷ xs) other (inr h) = elim (Bool-cases (orphan_hash x == hash)) [
  | inl b ↦ rw b (Has-without hash o xs other h)
  | inr b ↦ rw b (inr (Has-without hash o xs other h))
]

without-Has :
    (hash : ℕ) (o : OrphanBlock) (xs : List OrphanBlock)
    → Has o (without hash xs)
    → Has o xs × (orphan_hash o ≢ hash)
unfolding without
without-Has hash o [] = λ h. elim h [ ]
without-Has hash o (x ∷ xs) = elim (Bool-cases (orphan_hash x == hash)) [
  | inl b ↦ rw b (λ h. let (k, other) = without-Has hash o xs h in (inr k, other))
  | inr b ↦ rw b (λ h. elim h [
    | inl e ↦ (inl e, λ same. ne_of_test (orphan_hash x) hash b (ap orphan_hash e ∙ same))
    | inr k ↦ let (l, other) = without-Has hash o xs k in (inr l, other)
  ])
]

abbrev or_empty : Option (List OrphanBlock) → List OrphanBlock
or_empty none = []
or_empty (some l) = l

waiting-insert :
    (p q : ℕ) (l : List OrphanBlock) (m : List (ℕ × List OrphanBlock))
    → waiting q (insert p l m) ≡ (if p == q then l else waiting q m)
waiting-insert p q l m = elim (Bool-cases (p == q)) [
  | inl e ↦ ap or_empty (lookup-insert p q l m ∙ if_true _ _ e) ∙ sym (if_true _ _ e)
  | inr e ↦ ap or_empty (lookup-insert p q l m ∙ if_false _ _ e) ∙ sym (if_false _ _ e)
]

waiting-set_waiting :
    (p q : ℕ) (l : List OrphanBlock) (m : List (ℕ × List OrphanBlock))
    → waiting q (set_waiting p l m) ≡ (if p == q then l else waiting q m)
unfolding set_waiting
waiting-set_waiting p q [] m = elim (Bool-cases (p == q)) [
  | inl e ↦ ap or_empty (lookup-remove p q m ∙ if_true _ _ e) ∙ sym (if_true _ _ e)
  | inr e ↦ ap or_empty (lookup-remove p q m ∙ if_false _ _ e) ∙ sym (if_false _ _ e)
]
waiting-set_waiting p q (o ∷ l) m = waiting-insert p q (o ∷ l) m

All-remove :
    (P : ℕ × OrphanBlock → Type 0) (k : ℕ) (m : List (ℕ × OrphanBlock))
    → All P m
    → All P (remove k m)
All-remove P k [] all = tt
All-remove P k ((j, v) ∷ m) all = elim (Bool-cases (j == k)) [
  | inl e ↦ rw e (All-remove P k m all.1)
  | inr e ↦ rw e (all.0, All-remove P k m all.1)
]

old_entry :
    (o o' : OrphanBlock) (pool : OrphanPool)
    → lookup (orphan_hash o) pool.orphans ≡ none
    → lookup (orphan_hash o') pool.orphans ≡ some o'
    → lookup (orphan_hash o') (insert (orphan_hash o) o pool.orphans) ≡ some o'
old_entry o o' pool fresh there =
    lookup-insert (orphan_hash o) (orphan_hash o') o pool.orphans
    ∙ if_false _ _ (
        test_of_ne (orphan_hash o) (orphan_hash o')
          (λ q. none_not_some (sym fresh ∙ ap (λ h. lookup h pool.orphans) q ∙ there)))
    ∙ there

older_prev :
    {P : OrphanBlock → Type 0} (o : OrphanBlock) (oldest : Option OrphanBlock)
    → P o
    → ((o' : OrphanBlock) → oldest ≡ some o' → P o')
    → (o' : OrphanBlock) → older o oldest ≡ some o'
    → P o'
unfolding older
older_prev {P} o none at known o' e = subst P (some_inj e) at
older_prev {P} o (some old) at known o' e = elim (Bool-cases (ltb o.expiration old.expiration)) [
  | inl b ↦ subst P (some_inj (sym (if_true _ _ b) ∙ e)) at
  | inr b ↦ known o' (sym (if_false _ _ b) ∙ e)
]

-- The parent that a hash fixes, where no two blocks share a hash.
module _ (prev_of : ℕ → ℕ) where
  abbrev pub IsEntry : ℕ × OrphanBlock → Type 0
  IsEntry (h, o) = (orphan_hash o ≡ h) × (orphan_prev o ≡ prev_of h)

  -- Both maps give the same orphans, each under its hash and under its parent's.
  abbrev pub IsConsistent : OrphanPool → Type 0
  IsConsistent pool =
      All IsEntry pool.orphans
      × ((h : ℕ) (o : OrphanBlock)
          → lookup h pool.orphans ≡ some o
          → Has o (waiting (prev_of h) pool.prev_orphans))
      × ((p : ℕ) (o : OrphanBlock)
          → Has o (waiting p pool.prev_orphans)
          → (orphan_prev o ≡ p) × (lookup (orphan_hash o) pool.orphans ≡ some o))
      × ((o : OrphanBlock) → pool.oldest_orphan ≡ some o → orphan_prev o ≡ prev_of (orphan_hash o))

  IsEntry-of :
      (m : List (ℕ × OrphanBlock)) (h : ℕ) (o : OrphanBlock)
      → All IsEntry m
      → lookup h m ≡ some o
      → IsEntry (h, o)
  IsEntry-of [] h o all e = absurd (cc)
  IsEntry-of ((j, v) ∷ m) h o all e = elim (Bool-cases (j == h)) [
    | inl same ↦
        let there : v ≡ o = some_inj (sym (if_true _ _ same) ∙ e) in
        let key : j ≡ h = (==_iff j h).0 same in
        (
          subst (λ w. orphan_hash w ≡ h) there (all.0.0 ∙ key),
          subst (λ w. orphan_prev w ≡ prev_of h) there (all.0.1 ∙ ap prev_of key),
        )
    | inr other ↦ IsEntry-of m h o all.1 (sym (if_false _ _ other) ∙ e)
  ]

  pub remove_orphan_block-IsConsistent :
      (o : OrphanBlock) (pool : OrphanPool)
      → orphan_prev o ≡ prev_of (orphan_hash o)
      → IsConsistent pool
      → IsConsistent (remove_orphan_block o pool)
  unfolding remove_orphan_block
  remove_orphan_block-IsConsistent o pool prev (entries, known, listed, oldest) =
      let h0 = orphan_hash o in
      let p0 = orphan_prev o in
      let kept = without h0 (waiting p0 pool.prev_orphans) in
      (
        All-remove IsEntry h0 pool.orphans entries,
        λ h o' e. elim (Bool-cases (h0 == h)) [
          | inl same ↦
              absurd (none_not_some (sym (lookup-remove h0 h pool.orphans ∙ if_true _ _ same) ∙ e))
          | inr other ↦
              let e' : lookup h pool.orphans ≡ some o' =
                sym (lookup-remove h0 h pool.orphans ∙ if_false _ _ other) ∙ e in
              let has = known h o' e' in
              let at : orphan_hash o' ≡ h = (IsEntry-of pool.orphans h o' entries e').0 in
              elim (Bool-cases (p0 == prev_of h)) [
                | inl p ↦
                    subst (Has o')
                      (sym
                        (waiting-set_waiting p0 (prev_of h) kept pool.prev_orphans ∙ if_true _ _ p))
                      (Has-without h0 o' (waiting p0 pool.prev_orphans)
                        (λ q. ne_of_test h0 h other (sym q ∙ at))
                        (subst (λ x. Has o' (waiting x pool.prev_orphans))
                          (sym ((==_iff p0 (prev_of h)).0 p)) has))
                | inr p ↦
                    subst (Has o')
                      (sym (
                        waiting-set_waiting p0 (prev_of h) kept pool.prev_orphans ∙ if_false _ _ p))
                      has
              ]
        ],
        λ p o' has. elim (Bool-cases (p0 == p)) [
          | inl same ↦
              let (was, differs) = without-Has h0 o' (waiting p0 pool.prev_orphans) (
                subst (Has o') (waiting-set_waiting p0 p kept pool.prev_orphans ∙ if_true _ _ same)
                  has) in
              let (at, there) = listed p0 o' was in
              (
                at ∙ (==_iff p0 p).0 same,
                lookup-remove h0 (orphan_hash o') pool.orphans
                    ∙ if_false _ _ (test_of_ne h0 (orphan_hash o') (λ q. differs (sym q)))
                    ∙ there,
              )
          | inr other ↦
              let (at, there) = listed p o' (
                subst (Has o')
                  (waiting-set_waiting p0 p kept pool.prev_orphans ∙ if_false _ _ other) has) in
              let prev' = (IsEntry-of pool.orphans (orphan_hash o') o' entries there).1 in
              (
                at,
                lookup-remove h0 (orphan_hash o') pool.orphans
                    ∙ if_false _ _ (
                        test_of_ne h0 (orphan_hash o')
                          (λ q. ne_of_test p0 p other (prev ∙ ap prev_of q ∙ sym prev' ∙ at)))
                    ∙ there,
              )
        ],
        oldest,
      )

  pub insert_orphan-IsConsistent :
      (o : OrphanBlock) (pool : OrphanPool)
      → orphan_prev o ≡ prev_of (orphan_hash o)
      → lookup (orphan_hash o) pool.orphans ≡ none
      → IsConsistent pool
      → IsConsistent (insert_orphan o pool)
  unfolding insert_orphan
  insert_orphan-IsConsistent o pool prev fresh (entries, known, listed, oldest) =
      let h0 = orphan_hash o in
      let p0 = orphan_prev o in
      let old = waiting p0 pool.prev_orphans in
      (
        ((refl, prev), All-remove IsEntry h0 pool.orphans entries),
        λ h o' e. elim (Bool-cases (h0 == h)) [
          | inl same ↦
              let key = (==_iff h0 h).0 same in
              let there : o ≡ o' =
                some_inj (sym (lookup-insert h0 h o pool.orphans ∙ if_true _ _ same) ∙ e) in
              let at : p0 ≡ prev_of h = prev ∙ ap prev_of key in
              subst (Has o')
                (sym (
                  waiting-insert p0 (prev_of h) (old ++ (o ∷ [])) pool.prev_orphans
                  ∙ if_true _ _ ((==_iff p0 (prev_of h)).1 at)))
                (subst (λ w. Has w (old ++ (o ∷ []))) there (Has-append_last o old))
          | inr other ↦
              let has =
                known h o' (sym (lookup-insert h0 h o pool.orphans ∙ if_false _ _ other) ∙ e) in
              elim (Bool-cases (p0 == prev_of h)) [
                | inl p ↦
                    subst (Has o')
                      (sym (
                        waiting-insert p0 (prev_of h) (old ++ (o ∷ [])) pool.prev_orphans
                        ∙ if_true _ _ p))
                      (Has-append_left o' old (o ∷ []) (
                        subst (λ x. Has o' (waiting x pool.prev_orphans))
                          (sym ((==_iff p0 (prev_of h)).0 p)) has))
                | inr p ↦
                    subst (Has o')
                      (sym (
                        waiting-insert p0 (prev_of h) (old ++ (o ∷ [])) pool.prev_orphans
                        ∙ if_false _ _ p))
                      has
              ]
        ],
        λ p o' has. elim (Bool-cases (p0 == p)) [
          | inl same ↦
              elim (Has-append_cases o' o old (
                subst (Has o')
                  (waiting-insert p0 p (old ++ (o ∷ [])) pool.prev_orphans ∙ if_true _ _ same)
                  has)) [
                    | inl was ↦
                        let (at, there) = listed p0 o' was in
                        (at ∙ (==_iff p0 p).0 same, old_entry o o' pool fresh there)
                    | inr new ↦ (
                      ap orphan_prev (sym new) ∙ (==_iff p0 p).0 same,
                      lookup-insert h0 (orphan_hash o') o pool.orphans
                          ∙ if_true _ _ ((==_iff h0 (orphan_hash o')).1 (ap orphan_hash new))
                          ∙ ap some new,
                    )
                  ]
          | inr other ↦
              let (at, there) = listed p o' (
                subst (Has o')
                  (waiting-insert p0 p (old ++ (o ∷ [])) pool.prev_orphans ∙ if_false _ _ other)
                  has) in
              (at, old_entry o o' pool fresh there)
        ],
        oldest,
      )

  pub sweep-IsConsistent :
      (now : ℕ) (es : List (ℕ × OrphanBlock)) (pool : OrphanPool)
      → All IsEntry es
      → IsConsistent pool
      → IsConsistent (sweep now es pool)
  unfolding sweep older
  sweep-IsConsistent now [] pool all c = c
  sweep-IsConsistent now ((h, o) ∷ es) pool all (entries, known, listed, oldest) =
      let prev : orphan_prev o ≡ prev_of (orphan_hash o) = all.0.1 ∙ ap prev_of (sym all.0.0) in
      elim (Bool-cases (ltb o.expiration now)) [
        | inl e ↦ subst IsConsistent (sym (if_true _ _ e)) (
            sweep-IsConsistent now es (remove_orphan_block o pool) all.1
              (remove_orphan_block-IsConsistent o pool prev (entries, known, listed, oldest)))
        | inr e ↦ subst IsConsistent (sym (if_false _ _ e)) (
            sweep-IsConsistent now es (record pool { oldest_orphan = older o pool.oldest_orphan })
              all.1 (entries, known, listed, older_prev o pool.oldest_orphan prev oldest))
      ]
