-- ===== src/Invariants/Log/Piece.antt =====
-- Pieces of a canonical log of src/invariants.ts.
use sync_engine_v.Base.{
  ℕ, zero, suc, ◌+◌, ◌≡◌, refl, sym, subst, ◌∙◌, List, [], ◌∷◌, some, some-injective, arith,
  All-take, All-drop, length, get_elem?, get_elem?-drop, take, drop,
}
use sync_engine_v.Protocol.{CommittedOperation}
use sync_engine_v.Invariants.Identity.{IsCommitted}
use sync_engine_v.Invariants.Log.Valid.{Differs, IsContiguous, IsDistinct, IsPage}

module _ {A : Type 0} where
  -- a list that stands at the start of another one
  prefix-take :
      (es log : List A)
      → ((i : ℕ) (c : A) → get_elem? es i ≡ some c → get_elem? log i ≡ some c)
      → es ≡ take (length es) log
  prefix-take [] log h = refl
  prefix-take (e ∷ es) [] h = absurd (ground (arith, h 0 e refl))
  prefix-take (e ∷ es) (x ∷ log) h =
      let first : x ≡ e = some-injective (h 0 e refl) in
      let rest = prefix-take es log λ i c there. h (suc i) c there in rw (first, ← rest) refl

module _ {Operation : Type 0} where
  pub IsContiguous-take :
      (base n : ℕ) (es : List (CommittedOperation Operation))
      → IsContiguous base es
      → IsContiguous base (take n es)
  IsContiguous-take base zero es h = tt
  IsContiguous-take base (suc n) [] h = tt
  IsContiguous-take base (suc n) (e ∷ es) h = (h.0, IsContiguous-take (base + 1) n es h.1)

  pub IsContiguous-drop :
      (base n : ℕ) (es : List (CommittedOperation Operation))
      → IsContiguous base es
      → IsContiguous (base + n) (drop n es)
  IsContiguous-drop base zero es h = subst (λ k. IsContiguous k es) (omega arith) h
  IsContiguous-drop base (suc n) [] h = tt
  IsContiguous-drop base (suc n) (e ∷ es) h =
      subst (λ k. IsContiguous k (drop n es)) (omega arith) (IsContiguous-drop (base + 1) n es h.1)

  IsDistinct-take :
      (n : ℕ) (es : List (CommittedOperation Operation)) → IsDistinct es → IsDistinct (take n es)
  IsDistinct-take zero es h = tt
  IsDistinct-take (suc n) [] h = tt
  IsDistinct-take (suc n) (e ∷ es) h = (All-take (Differs e) n es h.0, IsDistinct-take n es h.1)

  pub IsDistinct-drop :
      (n : ℕ) (es : List (CommittedOperation Operation)) → IsDistinct es → IsDistinct (drop n es)
  IsDistinct-drop zero es h = h
  IsDistinct-drop (suc n) [] h = tt
  IsDistinct-drop (suc n) (e ∷ es) h = IsDistinct-drop n es h.1

  -- What stands in a page behind `n` entries is a page.
  pub IsPage-within :
      (n : ℕ) (es log : List (CommittedOperation Operation))
      → IsPage 0 log
      → ((i : ℕ) (c : CommittedOperation Operation)
          → get_elem? es i ≡ some c
          → get_elem? log (n + i) ≡ some c)
      → IsPage n es
  IsPage-within n es log p h =
      let rest = drop n log in
      let same : es ≡ take (length es) rest =
        prefix-take es rest λ i c there. get_elem?-drop n log i ∙ h i c there in
      subst (IsPage n) (sym same) (record {
        contiguous = IsContiguous-take n (length es) rest (
            subst (λ k. IsContiguous k rest) (omega arith)
              (IsContiguous-drop 0 n log p.contiguous));
        committed = All-take IsCommitted (length es) rest (All-drop IsCommitted n log p.committed);
        distinct = IsDistinct-take (length es) rest (IsDistinct-drop n log p.distinct);
      })
