-- ===== src/Server/Register.antt =====
-- The two maps of src/server.ts hold their entries in the order in which the decisions were made.
use sync_engine_v.Base.{
  String, ◌≡◌, refl, subst, inl, inr, List, [], ◌∷◌, ◌++◌, none, some, All, All-append, All-map,
  str_eq_refl,
}
use sync_engine_v.Base.Dict.{Dict, lookup, values, put-fresh, lookup-append, values-append}
use sync_engine_v.Errors.{Result-cases}
use sync_engine_v.Protocol.{ProposedOperation, ProposalDecision, SyncRequest}
use sync_engine_v.Invariants.Identity.{IsIdentity}
use sync_engine_v.Invariants.Batch.Valid.{IsBatch}
use sync_engine_v.Server.{LogServer, StoredProposalDecision, client_position_key, synchronize}
use sync_engine_v.Server.Direct.{Step, with_decision}
use sync_engine_v.Server.Decides.{
  IsIndexed, IsNew, IsNew-free, DecidesTo, again, refused, appended, decide_one-IsIndexed,
}
use sync_engine_v.Server.Batch.{DecidesAll, done, next}
use sync_engine_v.Server.Sync.{
  synchronize-eq-err, synchronize-Synchronizes, synchronize-IsIndexed, serve,
}

module _ {Operation Rejection : Type 0} where
  abbrev pub id_of : StoredProposalDecision Operation Rejection → String
  id_of stored = stored.identity.operation_id

  abbrev pub place_of : StoredProposalDecision Operation Rejection → String
  place_of stored = client_position_key stored.identity.identity

  -- The decisions by operation id and the ids by client position, one entry after the other, each
  -- under a key that was free, for a usable identity.
  pub data Registers
      : Dict (StoredProposalDecision Operation Rejection) → Dict String → Type 0 where
    empty : Registers [] []
    one_more :
        {decisions : Dict (StoredProposalDecision Operation Rejection)} {places : Dict String}
        (stored : StoredProposalDecision Operation Rejection)
        → Registers decisions places
        → IsIdentity stored.identity
        → lookup (id_of stored) decisions ≡ none
        → lookup (place_of stored) places ≡ none
        → Registers
            (decisions ++ (id_of stored, stored) ∷ [])
            (places ++ (place_of stored, id_of stored) ∷ [])

  -- Each decision is found under its own id, and has a usable identity.
  pub Registers-lookup :
      {decisions : Dict (StoredProposalDecision Operation Rejection)} {places : Dict String}
      → Registers decisions places
      → All
          (λ stored. (lookup (id_of stored) decisions ≡ some stored) × IsIdentity stored.identity)
          (values decisions)
  unfolding lookup values
  Registers-lookup empty = tt
  Registers-lookup (one_more {decisions = decisions} stored r valid free free_place) =
      let grown = decisions ++ (id_of stored, stored) ∷ [] in
      let Found = λ (s : StoredProposalDecision Operation Rejection).
        (lookup (id_of s) grown ≡ some s) × IsIdentity s.identity in
      let last : lookup (id_of stored) grown ≡ some stored =
        rw (lookup-append (id_of stored) decisions ((id_of stored, stored) ∷ []), free)
          (rw (str_eq_refl (id_of stored)) refl) in
      rw (values-append decisions ((id_of stored, stored) ∷ [])) (
        All-append Found (values decisions) (stored ∷ [])
          (All-map (λ s. (lookup (id_of s) decisions ≡ some s) × IsIdentity s.identity)
            (values decisions)
            (λ s h.
              (rw (lookup-append (id_of s) decisions ((id_of stored, stored) ∷ []), h.0) refl, h.1))
            (Registers-lookup r))
          ((last, valid), tt))

module _ {State Intent Operation Rejection : Type 0} where
  abbrev pub IsRegistered : LogServer State Intent Operation Rejection → Type 0
  IsRegistered server =
      Registers server.decisions_by_operation_id server.operation_id_by_client_position

  -- a new decision goes to the end of both maps
  with_decision-IsRegistered :
      (server : LogServer State Intent Operation Rejection) (p : ProposedOperation Intent)
      (decision : ProposalDecision Operation Rejection)
      → IsIdentity p.submission
      → IsIndexed server
      → IsNew server p
      → IsRegistered server
      → IsRegistered (with_decision server p.submission decision)
  with_decision-IsRegistered server p decision valid i fresh r =
      let free = IsNew-free server p i fresh in
      rw
        (
          put-fresh p.operation_id (record { identity = p.submission; decision = decision })
              server.decisions_by_operation_id fresh.unknown,
          put-fresh (client_position_key p.identity) p.operation_id
              server.operation_id_by_client_position free,
        )
        (one_more (record { identity = p.submission; decision = decision }) r valid fresh.unknown
          free)

  DecidesTo-IsRegistered :
      (server : LogServer State Intent Operation Rejection) (p : ProposedOperation Intent)
      {r : Step State Intent Operation Rejection}
      → IsIdentity p.submission
      → IsIndexed server
      → DecidesTo server p r
      → IsRegistered server
      → IsRegistered r.1
  DecidesTo-IsRegistered server p valid i (again stored e d same) r = subst IsRegistered same r
  DecidesTo-IsRegistered server p valid i (refused reason fresh d same) r =
      subst (λ (s : Step State Intent Operation Rejection). IsRegistered s.1) same
        (with_decision-IsRegistered server p _ valid i fresh r)
  DecidesTo-IsRegistered server p valid i (appended operation next_state fresh d applied same) r =
      subst (λ (s : Step State Intent Operation Rejection). IsRegistered s.1) same
        (with_decision-IsRegistered server p _ valid i fresh r)

  DecidesAll-IsRegistered :
      {server last : LogServer State Intent Operation Rejection}
      {ps : List (ProposedOperation Intent)} {ds : List (ProposalDecision Operation Rejection)}
      → IsBatch ps
      → IsIndexed server
      → DecidesAll server ps ds last
      → IsRegistered server
      → IsRegistered last
  DecidesAll-IsRegistered b i done r = r
  DecidesAll-IsRegistered b i (next {p = p} step rest) r =
      DecidesAll-IsRegistered b.2 (decide_one-IsIndexed _ _ step i) rest
        (DecidesTo-IsRegistered _ p b.0 i step r)

  synchronize-IsRegistered :
      (server : LogServer State Intent Operation Rejection) (request : SyncRequest Intent)
      → IsIndexed server
      → IsRegistered server
      → IsRegistered (synchronize server request).1
  synchronize-IsRegistered server request i r = elim (Result-cases (synchronize server request).0) [
    | inl (e, failed) ↦ rw (synchronize-eq-err server request failed) r
    | inr (response, finished) ↦
        let s = synchronize-Synchronizes server request i finished in
        DecidesAll-IsRegistered s.valid.batch i s.steps r
  ]

  pub serve-IsRegistered :
      (server : LogServer State Intent Operation Rejection) (requests : List (SyncRequest Intent))
      → IsIndexed server
      → IsRegistered server
      → IsRegistered (serve server requests)
  unfolding serve
  serve-IsRegistered server [] i r = r
  serve-IsRegistered server (request ∷ rest) i r =
      serve-IsRegistered (synchronize server request).1 rest
        (synchronize-IsIndexed server request i) (synchronize-IsRegistered server request i r)
