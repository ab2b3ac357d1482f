-- ===== src/TxStore/Marks.antt =====
-- Marked outputs stay marked (txlookup.go).
use btcchain.Common.{
  ℕ, zero, suc, ◌%◌, ◌^◌, ◌≤◌, ◌<◌, ◌≡◌, ◌↔◌, refl, sym, ◌∙◌, ap, arith, inl, inr, ltb, ltb→lt, ◌⊎◌,
  ◌==◌, ==_iff, ==_refl, Bool, true, Bool-cases, none, some, List, [], ◌∷◌, length, get_elem?, set,
  lookup, insert, lookup-insert, err, panic,
}
use btcchain.Wire.{OutPoint}
use btcchain.TxStore.{TxData, TxStore, mark_output}

-- The output is in the store, marked as spent.
abbrev pub IsSpent : OutPoint → TxStore → Type 0
IsSpent p store =
    (entry : TxData) × (lookup p.hash store ≡ some entry)
    × (get_elem? entry.spent p.index ≡ some true)

-- The entry with one output marked.
abbrev pub spend_in : TxData → ℕ → TxData
spend_in entry i = record entry { spent = set entry.spent i true }

get_elem?-set-true :
    (marks : List Bool) (i j : ℕ)
    → get_elem? marks i ≡ some true
    → get_elem? (set marks j true) i ≡ some true
get_elem?-set-true [] i j h = cc
get_elem?-set-true (m ∷ marks) zero zero h = refl
get_elem?-set-true (m ∷ marks) zero (suc j) h = h
get_elem?-set-true (m ∷ marks) (suc i) zero h = h
get_elem?-set-true (m ∷ marks) (suc i) (suc j) h = get_elem?-set-true marks i j h

get_elem?-set_same :
    (marks : List Bool) (i : ℕ) (m : Bool)
    → get_elem? marks i ≡ some m
    → get_elem? (set marks i true) i ≡ some true
get_elem?-set_same [] i m h = cc
get_elem?-set_same (n ∷ marks) zero m h = refl
get_elem?-set_same (n ∷ marks) (suc i) m h = get_elem?-set_same marks i m h

pub spend_in-IsSpent :
    (p : OutPoint) (entry : TxData) (m : Bool) (store : TxStore)
    → get_elem? entry.spent p.index ≡ some m
    → IsSpent p (insert p.hash (spend_in entry p.index) store)
spend_in-IsSpent p entry m store h = (
  spend_in entry p.index,
  (lookup-insert p.hash p.hash (spend_in entry p.index) store ∙ rw (==_refl p.hash) refl),
  get_elem?-set_same entry.spent p.index m h,
)

-- Marking one output unmarks no other.
pub spend_in-keeps :
    (p q : OutPoint) (entry : TxData) (store : TxStore)
    → lookup q.hash store ≡ some entry
    → IsSpent p store
    → IsSpent p (insert q.hash (spend_in entry q.index) store)
spend_in-keeps p q entry store found (old, at, spent) = elim (Bool-cases (q.hash == p.hash)) [
  | inl e ↦
      let same : q.hash ≡ p.hash = (==_iff q.hash p.hash).0 e in
      let entries : some old ≡ some entry = sym at ∙ sym (ap (λ h. lookup h store) same) ∙ found in
      (
        spend_in entry q.index,
        (lookup-insert q.hash p.hash (spend_in entry q.index) store ∙ rw (e) refl),
        get_elem?-set-true entry.spent p.index q.index (
            ap (λ o. elim o [ none ↦ none | some x ↦ get_elem? x.spent p.index ]) (sym entries)
            ∙ spent),
      )
  | inr e ↦ (old, (lookup-insert q.hash p.hash (spend_in entry q.index) store ∙ rw (e) at), spent)
]

get_elem?-cases :
    (marks : List Bool) (i : ℕ)
    → ((m : Bool) × (get_elem? marks i ≡ some m) × (i < length marks))
      ⊎ ((get_elem? marks i ≡ none) × (length marks ≤ i))
get_elem?-cases [] i = inr (refl, omega arith)
get_elem?-cases (m ∷ marks) zero = inl (m, refl, omega arith)
get_elem?-cases (m ∷ marks) (suc i) = elim (get_elem?-cases marks i) [
  | inl (n, e, h) ↦ inl (n, e, omega arith)
  | inr (e, h) ↦ inr (e, omega arith)
]

-- Marking an output fails just at the index that is the length of the marks (cut to 32 bits as the
-- code does, here for fewer than 2 ^ 32 outputs): the test before the write lets it pass.
pub mark_output-panics :
    (mark : Bool) (entry : TxData) (p : OutPoint) (store : TxStore)
    → length entry.spent < 2 ^ 32
    → (mark_output mark entry p store ≡ err panic) ↔ (p.index ≡ length entry.spent)
unfolding mark_output
mark_output-panics mark entry p store short =
    let whole : length entry.spent % 2 ^ 32 ≡ length entry.spent = omega arith in
    elim (Bool-cases (ltb (length entry.spent) p.index)) [
      | inl skip ↦
          let past : length entry.spent < p.index = ltb→lt _ _ skip in
          (λ h. absurd (cc (rw (whole, skip, mark_output) at h)), λ e. absurd (omega arith))
      | inr try ↦ elim (get_elem?-cases entry.spent p.index) [
        | inl (m, e, h) ↦
            (λ f. absurd (cc (rw (whole, try, e, mark_output) at f)), λ same. absurd (omega arith))
        | inr (e, h) ↦ (λ _. ground arith, λ _. rw (whole, try, e, mark_output) refl)
      ]
    ]
