-- ===== src/Chain/Lookup/Filled.antt =====
-- What the fetched stores hold (txlookup.go).
use btcchain.Common.{
  ℕ, ◌≡◌, refl, sym, ◌∙◌, ap, arith, inl, inr, Option, none, some, Option-cases, List, [], ◌∷◌,
  ◌==◌, ==_iff, any, Bool, true, false, Bool-cases, if◌then◌else◌, lookup, insert, lookup-insert,
  length,
}
use btcchain.TxStore.Connected.{map_entry, map_entry_twice, map_entry_same}
use btcchain.TxStore.{TxData, TxStore}
use btcchain.Chain.Lookup.{
  TxReply, TxDb, missing_entry, all_missing, fill_entry, fill_all, fetch_tx_store_main,
}

-- An entry after the replies for its hash, in their order.
abbrev pub answered : ℕ → List TxReply → TxData → TxData
answered j [] entry = entry
answered j (reply ∷ replies) entry =
    answered j replies (if reply.sha == j then fill_entry reply.answer entry else entry)

lookup-all_missing :
    (j : ℕ) (set : List ℕ)
    → lookup j (all_missing set) ≡ (if any (λ h. h == j) set then some (missing_entry j) else none)
unfolding all_missing
lookup-all_missing j [] = refl
lookup-all_missing j (h ∷ set) =
    lookup-insert h j (missing_entry h) (all_missing set) ∙ elim (Bool-cases (h == j)) [
      | inl e ↦ rw e (ap (λ k. some (missing_entry k)) ((==_iff h j).0 e))
      | inr e ↦ rw e (lookup-all_missing j set)
    ]

abbrev one_answer : ℕ → TxReply → TxData → TxData
one_answer j reply entry = if reply.sha == j then fill_entry reply.answer entry else entry

not_asked :
    (j : ℕ) (reply : TxReply) (o : Option TxData)
    → (reply.sha == j) ≡ false
    → map_entry (one_answer j reply) o ≡ o
not_asked j reply none e = refl
not_asked j reply (some entry) e = rw e refl

asked :
    (j : ℕ) (reply : TxReply) (o : Option TxData)
    → (reply.sha == j) ≡ true
    → map_entry (one_answer j reply) o ≡ map_entry (fill_entry reply.answer) o
asked j reply none e = refl
asked j reply (some entry) e = rw e refl

lookup-one :
    (j : ℕ) (reply : TxReply) (store : TxStore)
    → lookup j (elim (lookup reply.sha store) [
      | none ↦ store
      | some entry ↦ insert reply.sha (fill_entry reply.answer entry) store
    ])
      ≡ map_entry (one_answer j reply) (lookup j store)
lookup-one j reply store = elim (Option-cases (lookup reply.sha store)) [
  | inl missing ↦ rw missing (elim (Bool-cases (reply.sha == j)) [
    | inl e ↦
        let gone : lookup j store ≡ none =
          ap (λ k. lookup k store) (sym ((==_iff reply.sha j).0 e)) ∙ missing in
        rw gone refl
    | inr e ↦ sym (not_asked j reply (lookup j store) e)
  ])
  | inr (entry, found) ↦ rw found (
      lookup-insert reply.sha j (fill_entry reply.answer entry) store
      ∙ elim (Bool-cases (reply.sha == j)) [
        | inl e ↦
            let there : lookup j store ≡ some entry =
              ap (λ k. lookup k store) (sym ((==_iff reply.sha j).0 e)) ∙ found in
            ap (λ b. if b then some (fill_entry reply.answer entry) else lookup j store) e
            ∙ sym
                (asked j reply (lookup j store) e ∙ ap (map_entry (fill_entry reply.answer)) there)
        | inr e ↦
            ap (λ b. if b then some (fill_entry reply.answer entry) else lookup j store) e
            ∙ sym (not_asked j reply (lookup j store) e)
      ])
]

lookup-fill_all :
    (j : ℕ) (replies : List TxReply) (store : TxStore)
    → lookup j (fill_all replies store) ≡ map_entry (answered j replies) (lookup j store)
unfolding fill_all
lookup-fill_all j [] store = map_entry_same (lookup j store)
lookup-fill_all j (reply ∷ replies) store =
    lookup-fill_all j replies _
    ∙ ap (map_entry (answered j replies)) (lookup-one j reply store)
    ∙ map_entry_twice (answered j replies) (one_answer j reply) (lookup j store)

not_empty : (h : ℕ) (set : List ℕ) → (length (h ∷ set) == 0) ≡ false
not_empty h set = ground arith

lookup-filled :
    (j : ℕ) (set : List ℕ) (replies : List TxReply)
    → lookup j (fill_all replies (all_missing set))
      ≡ (if any (λ k. k == j) set then some (answered j replies (missing_entry j)) else none)
lookup-filled j set replies =
    lookup-fill_all j replies (all_missing set)
    ∙ ap (map_entry (answered j replies)) (lookup-all_missing j set)
    ∙ elim (Bool-cases (any (λ k. k == j) set)) [ inl e ↦ rw e refl | inr e ↦ rw e refl ]

module _ {S : Type 0} (txs : TxDb S) where
  -- What the database is asked.
  abbrev pub replies_for : S → List ℕ → Bool → List TxReply
  replies_for db set true = txs.fetch_tx_by_sha_list db set
  replies_for db set false = txs.fetch_un_spent_tx_by_sha_list db set

  -- fetchTxStoreMain has an entry for each hash that was asked for and for no other: it is missing
  -- until the replies for that hash, in their order, have filled it in, whatever else is replied.
  pub fetch_tx_store_main-lookup :
      (db : S) (set : List ℕ) (include_spent : Bool) (j : ℕ)
      → lookup j (fetch_tx_store_main txs db set include_spent) ≡ (
          if any (λ h. h == j) set
          then some (answered j (replies_for db set include_spent) (missing_entry j))
          else none)
  unfolding fetch_tx_store_main
  fetch_tx_store_main-lookup db [] include_spent j = refl
  fetch_tx_store_main-lookup db (h ∷ set) true j =
      ap
        (λ b. lookup j (elim b [
          | true ↦ []
          | false ↦ fill_all (txs.fetch_tx_by_sha_list db (h ∷ set)) (all_missing (h ∷ set))
        ]))
        (not_empty h set)
      ∙ lookup-filled j (h ∷ set) (txs.fetch_tx_by_sha_list db (h ∷ set))
  fetch_tx_store_main-lookup db (h ∷ set) false j =
      ap
        (λ b. lookup j (elim b [
          | true ↦ []
          | false ↦
              fill_all (txs.fetch_un_spent_tx_by_sha_list db (h ∷ set)) (all_missing (h ∷ set))
        ]))
        (not_empty h set)
      ∙ lookup-filled j (h ∷ set) (txs.fetch_un_spent_tx_by_sha_list db (h ∷ set))
