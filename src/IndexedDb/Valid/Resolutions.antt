-- ===== src/IndexedDb/Valid/Resolutions.antt =====
-- What the loop over the resolutions in `assertReplicaRecord` accepts.
use sync_engine_v.Base.{
  ℕ, ◌+◌, String, ◌≡◌, ◌≢◌, refl, ◌↔◌, List, [], ◌∷◌, arith, str_eq_iff, contains, false, subst,
}
use sync_engine_v.Errors.{ok, >>=-eq-ok}
use sync_engine_v.Protocol.{ProposalDecision, ProposalOutcome, accepted, rejected}
use sync_engine_v.Invariants.Identity.{IsSequence}
use sync_engine_v.Wire.{index_path}
use sync_engine_v.IndexedDb.{
  Payloads, decision_value, items_of, check_resolution, check_resolutions,
}

abbrev pub IsOutcome : {Operation Rejection : Type 0} → ProposalOutcome Operation Rejection → Type 0
IsOutcome (accepted sequence operation) = IsSequence sequence
IsOutcome (rejected reason) = Unit

module _ {Operation Rejection : Type 0} where
  -- A decision that names its operation, and a usable sequence number if it accepts.
  pub record IsUsable (d : ProposalDecision Operation Rejection) : Type 0 where
    pub named : d.operation_id ≢ ""
    pub outcome : IsOutcome d.outcome

  -- Usable decisions, of different operations and none that is named in `ids`.
  abbrev pub AllUsable : List String → List (ProposalDecision Operation Rejection) → Type 0
  AllUsable ids [] = Unit
  AllUsable ids (d ∷ ds) =
      IsUsable d × (contains d.operation_id ids ≡ false) × AllUsable (d.operation_id ∷ ids) ds

module _ {State Intent Operation Rejection : Type 0}
    (payloads : Payloads State Intent Operation Rejection) (stream_id : String) where
  check_resolution-eq-ok :
      (path : String) (ids : List String) (id : String) (o : ProposalOutcome Operation Rejection)
      {out : List String}
      → check_resolution stream_id path ids
          (decision_value payloads (record { operation_id = id; outcome = o }))
        ≡ ok out
      → IsUsable {Operation = Operation} {Rejection = Rejection}
          (record { operation_id = id; outcome = o })
        × (contains id ids ≡ false)
        × (out ≡ id ∷ ids)
  unfolding check_resolution
  check_resolution-eq-ok path ids id (accepted sequence operation) h =
      ground (arith, str_eq_iff id "")
  check_resolution-eq-ok path ids id (rejected reason) h = ground (arith, str_eq_iff id "")

  check_resolution-passes :
      (path : String) (ids : List String) (id : String) (o : ProposalOutcome Operation Rejection)
      → IsUsable {Operation = Operation} {Rejection = Rejection}
          (record { operation_id = id; outcome = o })
      → contains id ids ≡ false
      → check_resolution stream_id path ids
          (decision_value payloads (record { operation_id = id; outcome = o }))
        ≡ ok (id ∷ ids)
  unfolding check_resolution
  check_resolution-passes path ids id (accepted sequence operation) u f =
      ground (arith, str_eq_iff id "")
  check_resolution-passes path ids id (rejected reason) u f = ground (arith, str_eq_iff id "")

  pub check_resolutions-eq-ok :
      (index : ℕ) (ids : List String) (ds : List (ProposalDecision Operation Rejection))
      → (check_resolutions stream_id index ids (items_of (decision_value payloads) ds) ≡ ok tt)
        ↔ AllUsable ids ds
  unfolding check_resolutions items_of
  check_resolutions-eq-ok index ids [] = (λ h. tt, λ h. refl)
  check_resolutions-eq-ok index ids (d ∷ ds) =
      let rest = check_resolutions-eq-ok (index + 1) (d.operation_id ∷ ids) ds in
      (
        λ h.
            let (ids', round, h₁) =
              >>=-eq-ok
                (check_resolution stream_id (index_path "resolutions" index) ids
                  (decision_value payloads d))
                _ h in
            let (u, f, out) = check_resolution-eq-ok _ ids d.operation_id d.outcome round in
            (
              u,
              f,
              rest.0 (
                  subst
                    (λ ids'.
                      check_resolutions stream_id (index + 1) ids'
                        (items_of (decision_value payloads) ds)
                      ≡ ok tt)
                    out h₁),
            ),
        λ h.
            rw
              (check_resolution-passes (index_path "resolutions" index) ids d.operation_id d.outcome
                h.0 h.1)
              (rest.1 h.2),
      )
