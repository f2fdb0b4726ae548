-- ===== src/Replica/Find.antt =====
-- The list operations of src/replica.ts on the outbox: what they find, and what they keep.
use sync_engine_v.Base.{
  ℕ, zero, suc, String, ◌≡◌, refl, sym, ap, subst, ◌∙◌, ◌≢◌, inl, inr, List, [], ◌∷◌, none, some,
  arith, All, All-get_elem?, get_elem?, some-injective, str_eq, str_eq→eq, str_eq→ne, Bool-cases,
}
use sync_engine_v.Replica.{OutboxEntry, find_index, remove_at, replace_at}

module _ {Intent Operation : Type 0} where
  abbrev pub id_of : OutboxEntry Intent Operation → String
  id_of e = e.proposal.operation_id

  -- No two entries of the outbox are of one operation.
  abbrev pub IsDistinct : List (OutboxEntry Intent Operation) → Type 0
  IsDistinct [] = Unit
  IsDistinct (e ∷ es) = All (λ e'. id_of e ≢ id_of e') es × IsDistinct es

  pub find_index-eq-none :
      (id : String) (es : List (OutboxEntry Intent Operation))
      → find_index id es ≡ none
      → All (λ e. id_of e ≢ id) es
  unfolding find_index
  find_index-eq-none id [] h = tt
  find_index-eq-none id (e ∷ es) h = elim (Bool-cases (str_eq (id_of e) id)) [
    | inl same ↦ absurd (ground arith)
    | inr other ↦ (str_eq→ne other, find_index-eq-none id es (ground arith))
  ]

  pub find_index-eq-some :
      (id : String) (es : List (OutboxEntry Intent Operation)) (i : ℕ)
      → find_index id es ≡ some i
      → (e : OutboxEntry Intent Operation) × (get_elem? es i ≡ some e) × (id_of e ≡ id)
  unfolding find_index
  find_index-eq-some id [] i h = absurd (ground arith)
  find_index-eq-some id (e ∷ es) zero h = elim (Bool-cases (str_eq (id_of e) id)) [
    | inl same ↦ (e, refl, str_eq→eq same)
    | inr other ↦ absurd (ground arith)
  ]
  find_index-eq-some id (e ∷ es) (suc i) h = elim (Bool-cases (str_eq (id_of e) id)) [
    | inl same ↦ absurd (ground arith)
    | inr other ↦ find_index-eq-some id es i (ground arith)
  ]

  pub remove_at-All :
      (P : OutboxEntry Intent Operation → Type 0) (i : ℕ) (es : List (OutboxEntry Intent Operation))
      → All P es
      → All P (remove_at i es)
  unfolding remove_at
  remove_at-All P i [] h = tt
  remove_at-All P zero (e ∷ es) h = h.1
  remove_at-All P (suc i) (e ∷ es) h = (h.0, remove_at-All P i es h.1)

  pub replace_at-All :
      (P : OutboxEntry Intent Operation → Type 0) (i : ℕ) (v : OutboxEntry Intent Operation)
      (es : List (OutboxEntry Intent Operation))
      → P v
      → All P es
      → All P (replace_at i v es)
  unfolding replace_at
  replace_at-All P i v [] p h = tt
  replace_at-All P zero v (e ∷ es) p h = (p, h.1)
  replace_at-All P (suc i) v (e ∷ es) p h = (h.0, replace_at-All P i v es p h.1)

  pub remove_at-IsDistinct :
      (i : ℕ) (es : List (OutboxEntry Intent Operation))
      → IsDistinct es
      → IsDistinct (remove_at i es)
  unfolding remove_at
  remove_at-IsDistinct i [] h = tt
  remove_at-IsDistinct zero (e ∷ es) h = h.1
  remove_at-IsDistinct (suc i) (e ∷ es) h =
      (remove_at-All (λ e'. id_of e ≢ id_of e') i es h.0, remove_at-IsDistinct i es h.1)

  -- what is removed was the only entry of its operation
  pub remove_at-gone :
      (i : ℕ) (es : List (OutboxEntry Intent Operation)) {e : OutboxEntry Intent Operation}
      → IsDistinct es
      → get_elem? es i ≡ some e
      → All (λ e'. id_of e ≢ id_of e') (remove_at i es)
  unfolding remove_at
  remove_at-gone i [] d h = tt
  remove_at-gone zero (x ∷ es) d h =
      subst (λ (a : OutboxEntry Intent Operation). All (λ e'. id_of a ≢ id_of e') es)
        (some-injective h) d.0
  remove_at-gone (suc i) (x ∷ es) {e} d h = (
    λ same. All-get_elem? (λ e'. id_of x ≢ id_of e') es i d.0 h (sym same),
    remove_at-gone i es d.1 h,
  )

  pub replace_at-IsDistinct :
      (i : ℕ) (v : OutboxEntry Intent Operation) (es : List (OutboxEntry Intent Operation))
      {e : OutboxEntry Intent Operation}
      → get_elem? es i ≡ some e
      → id_of e ≡ id_of v
      → IsDistinct es
      → IsDistinct (replace_at i v es)
  unfolding replace_at
  replace_at-IsDistinct i v [] h same d = tt
  replace_at-IsDistinct zero v (x ∷ es) h same d = (
    subst (λ (id : String). All (λ e'. id ≢ id_of e') es) (ap id_of (some-injective h) ∙ same) d.0,
    d.1,
  )
  replace_at-IsDistinct (suc i) v (x ∷ es) h same d = (
    replace_at-All (λ e'. id_of x ≢ id_of e') i v es
        (λ e. All-get_elem? (λ e'. id_of x ≢ id_of e') es i d.0 h (e ∙ sym same)) d.0,
    replace_at-IsDistinct i v es h same d.1,
  )
