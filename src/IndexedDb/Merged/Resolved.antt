-- ===== src/IndexedDb/Merged/Resolved.antt =====
-- The outcomes that src/indexeddb stores, and those that are added to them.
use sync_engine_v.Base.{
  String, ◌≡◌, ◌≢◌, inl, inr, false, List, [], ◌∷◌, ◌++◌, arith, All, contains, contains-cons,
  contains-nil, str_eq_iff, Bool-cases,
}
use sync_engine_v.Protocol.{ProposalDecision}
use sync_engine_v.IndexedDb.{append_unique_resolutions, append_unseen, ids_of}
use sync_engine_v.IndexedDb.Valid.{IsUsable, AllUsable}

module _ {Operation Rejection : Type 0} where
  -- a usable decision of an operation that has none yet
  AllUsable-append :
      (ids : List String) (ds : List (ProposalDecision Operation Rejection))
      (d : ProposalDecision Operation Rejection)
      → AllUsable ids ds
      → IsUsable d
      → contains d.operation_id ids ≡ false
      → contains d.operation_id (ids_of ds) ≡ false
      → AllUsable ids (ds ++ d ∷ [])
  AllUsable-append ids [] d usable u fresh new = (u, fresh, tt)
  AllUsable-append ids (x ∷ xs) d usable u fresh new = (
    usable.0,
    usable.1,
    AllUsable-append (x.operation_id ∷ ids) xs d usable.2 u
        (ground (
          arith,
          contains-cons d.operation_id x.operation_id ids,
          contains-cons d.operation_id x.operation_id (ids_of xs),
          fresh,
          new,
        ))
        (ground (arith, contains-cons d.operation_id x.operation_id (ids_of xs), new)),
  )

  -- all that is in the result is seen
  abbrev Sees : List String → List (ProposalDecision Operation Rejection) → Type 0
  Sees seen result = (id : String) → contains id seen ≡ false → contains id (ids_of result) ≡ false

  contains-append :
      (id : String) (result : List (ProposalDecision Operation Rejection))
      (d : ProposalDecision Operation Rejection)
      → contains id (ids_of result) ≡ false
      → d.operation_id ≢ id
      → contains id (ids_of (result ++ d ∷ [])) ≡ false
  contains-append id [] d h ne =
      ground
        (arith, contains-cons id d.operation_id [], contains-nil id, str_eq_iff d.operation_id id)
  contains-append id (x ∷ xs) d h ne =
      let split = contains-cons id x.operation_id (ids_of xs) in
      let rest = contains-append id xs d (ground (arith, split, h)) ne in
      ground (arith, split, contains-cons id x.operation_id (ids_of (xs ++ d ∷ [])), h, rest)

  Sees-append :
      (seen : List String) (result : List (ProposalDecision Operation Rejection))
      (d : ProposalDecision Operation Rejection)
      → Sees seen result
      → Sees (d.operation_id ∷ seen) (result ++ d ∷ [])
  Sees-append seen result d sees id h =
      contains-append id result d
        (sees id (ground (arith, contains-cons id d.operation_id seen, h)))
        (ground (arith, contains-cons id d.operation_id seen, str_eq_iff d.operation_id id, h))

  append_unseen-AllUsable :
      (seen : List String) (result ds : List (ProposalDecision Operation Rejection))
      → Sees seen result
      → AllUsable [] result
      → All IsUsable ds
      → AllUsable [] (append_unseen seen result ds)
  unfolding append_unseen
  append_unseen-AllUsable seen result [] sees usable new = usable
  append_unseen-AllUsable seen result (d ∷ ds) sees usable new =
      elim (Bool-cases (contains d.operation_id seen)) [
        | inl known ↦ rw known (append_unseen-AllUsable seen result ds sees usable new.1)
        | inr unknown ↦ rw unknown (
            append_unseen-AllUsable (d.operation_id ∷ seen) (result ++ d ∷ []) ds
              (Sees-append seen result d sees)
              (AllUsable-append [] result d usable new.0 (contains-nil d.operation_id)
                (sees d.operation_id unknown))
              new.1)
      ]

  -- Usable outcomes that are added to usable outcomes, without those of an operation that has one.
  pub append_unique_resolutions-AllUsable :
      (existing ds : List (ProposalDecision Operation Rejection))
      → AllUsable [] existing
      → All IsUsable ds
      → AllUsable [] (append_unique_resolutions existing ds)
  unfolding append_unique_resolutions
  append_unique_resolutions-AllUsable existing [] usable new = usable
  append_unique_resolutions-AllUsable existing (d ∷ ds) usable new =
      append_unseen-AllUsable (ids_of existing) existing (d ∷ ds) (λ id h. h) usable new
