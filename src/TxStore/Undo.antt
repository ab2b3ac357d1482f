-- ===== src/TxStore/Undo.antt =====
-- disconnectTransactions after connectTransactions (txlookup.go): what the marks of an entry go through.
use btcchain.Common.{
  ℕ, zero, suc, ◌%◌, ◌^◌, ◌≡◌, refl, sym, ◌∙◌, ap, arith, inl, inr, ltb, ◌==◌, ==_iff, Bool, true,
  false, Bool-cases, Option, none, some, List, [], ◌∷◌, length, get_elem?, set, if◌then◌else◌, All,
}

-- A write of one mark, which is left out where the index is above the length as the code cuts it.
abbrev pub put : Bool → ℕ → List Bool → List Bool
put mark i spent = if ltb (length spent % 2 ^ 32) i then spent else set spent i mark

abbrev pub puts : Bool → List ℕ → List Bool → List Bool
puts mark [] spent = spent
puts mark (i ∷ is) spent = puts mark is (put mark i spent)

length-set : (spent : List Bool) (i : ℕ) (mark : Bool) → length (set spent i mark) ≡ length spent
length-set [] i mark = refl
length-set (m ∷ spent) zero mark = refl
length-set (m ∷ spent) (suc i) mark = ap suc (length-set spent i mark)

length-put : (mark : Bool) (i : ℕ) (spent : List Bool) → length (put mark i spent) ≡ length spent
length-put mark i spent = elim (Bool-cases (ltb (length spent % 2 ^ 32) i)) [
  | inl e ↦ rw e refl
  | inr e ↦ rw e (length-set spent i mark)
]

pub length-puts :
    (mark : Bool) (is : List ℕ) (spent : List Bool) → length (puts mark is spent) ≡ length spent
length-puts mark [] spent = refl
length-puts mark (i ∷ is) spent = length-puts mark is (put mark i spent) ∙ length-put mark i spent

abbrev pub over : Bool → Option Bool → Option Bool
over mark none = none
over mark (some m) = some mark

over_twice : (mark old : Bool) (o : Option Bool) → over mark (over old o) ≡ over mark o
over_twice mark old none = refl
over_twice mark old (some m) = refl

set_same :
    (spent : List Bool) (i : ℕ) (mark : Bool)
    → get_elem? (set spent i mark) i ≡ over mark (get_elem? spent i)
set_same [] i mark = refl
set_same (m ∷ spent) zero mark = refl
set_same (m ∷ spent) (suc i) mark = set_same spent i mark

set_other :
    (spent : List Bool) (i k : ℕ) (mark : Bool)
    → (i == k) ≡ false
    → get_elem? (set spent i mark) k ≡ get_elem? spent k
set_other [] i k mark e = refl
set_other (m ∷ spent) zero zero mark e = absurd (ground arith)
set_other (m ∷ spent) zero (suc k) mark e = refl
set_other (m ∷ spent) (suc i) zero mark e = refl
set_other (m ∷ spent) (suc i) (suc k) mark e = set_other spent i k mark (ground arith)

-- Whether a place is written, for a number of marks.
abbrev pub written : ℕ → List ℕ → ℕ → Bool
written n [] k = false
written n (i ∷ is) k =
    if ltb (n % 2 ^ 32) i then written n is k else if i == k then true else written n is k

pub get_elem?-puts :
    (mark : Bool) (is : List ℕ) (spent : List Bool) (k : ℕ)
    → get_elem? (puts mark is spent) k
      ≡ (if written (length spent) is k then over mark (get_elem? spent k) else get_elem? spent k)
get_elem?-puts mark [] spent k = refl
get_elem?-puts mark (i ∷ is) spent k = elim (Bool-cases (ltb (length spent % 2 ^ 32) i)) [
  | inl e ↦ rw e (get_elem?-puts mark is spent k)
  | inr e ↦ rw e (
      get_elem?-puts mark is (set spent i mark) k
      ∙ ap
          (λ n.
            if written n is k
            then over mark (get_elem? (set spent i mark) k)
            else get_elem? (set spent i mark) k)
          (length-set spent i mark)
      ∙ elim (Bool-cases (i == k)) [
        | inl f ↦
            let here : get_elem? (set spent i mark) k ≡ over mark (get_elem? spent k) =
              ap (λ q. get_elem? (set spent i mark) q) (sym ((==_iff i k).0 f))
              ∙ set_same spent i mark
              ∙ ap (λ q. over mark (get_elem? spent q)) ((==_iff i k).0 f) in
            rw (f, here)
              (elim (Bool-cases (written (length spent) is k)) [
                | inl g ↦ rw g (over_twice mark mark (get_elem? spent k))
                | inr g ↦ rw g refl
              ])
        | inr f ↦ rw (f, set_other spent i k mark f) refl
      ])
]

marks_ext : (a b : List Bool) → ((k : ℕ) → get_elem? a k ≡ get_elem? b k) → a ≡ b
marks_ext [] [] h = refl
marks_ext [] (m ∷ b) h = absurd (cc (h 0))
marks_ext (m ∷ a) [] h = absurd (cc (h 0))
marks_ext (m ∷ a) (n ∷ b) h =
    let e : some m ≡ some n = h 0 in cc (e, marks_ext a b (λ k. h (suc k)))

abbrev pub AllUnspent : List ℕ → List Bool → Type 0
AllUnspent is spent = All (λ i. get_elem? spent i ≡ some false) is

written_unspent :
    (n : ℕ) (is : List ℕ) (spent : List Bool) (k : ℕ)
    → AllUnspent is spent
    → written n is k ≡ true
    → get_elem? spent k ≡ some false
written_unspent n [] spent k all = λ e. absurd (cc)
written_unspent n (i ∷ is) spent k (here, all) = elim (Bool-cases (ltb (n % 2 ^ 32) i)) [
  | inl e ↦ rw e (written_unspent n is spent k all)
  | inr e ↦ rw e (elim (Bool-cases (i == k)) [
    | inl f ↦ λ _. ap (get_elem? spent) (sym ((==_iff i k).0 f)) ∙ here
    | inr f ↦ rw f (written_unspent n is spent k all)
  ])
]

-- Marks that were not set are as before when they have been set and cleared again.
pub puts_undo :
    (is : List ℕ) (spent : List Bool)
    → AllUnspent is spent
    → puts false is (puts true is spent) ≡ spent
puts_undo is spent all = marks_ext _ _ λ k.
    get_elem?-puts false is (puts true is spent) k
    ∙ ap
        (λ n.
          if written n is k
          then over false (get_elem? (puts true is spent) k)
          else get_elem? (puts true is spent) k)
        (length-puts true is spent)
    ∙ elim (Bool-cases (written (length spent) is k)) [
      | inl e ↦ rw e (
          ap (over false) (get_elem?-puts true is spent k)
          ∙ rw e (
              over_twice false true (get_elem? spent k)
              ∙ ap (over false) (written_unspent (length spent) is spent k all e)
              ∙ sym (written_unspent (length spent) is spent k all e)))
      | inr e ↦ rw e (get_elem?-puts true is spent k ∙ rw e refl)
    ]
