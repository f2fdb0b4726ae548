-- ===== src/Invariants/Log/Valid.antt =====
-- What the check of src/invariants.ts on a canonical log accepts.
use sync_engine_v.Base.{
  ℕ, ◌+◌, String, ◌≡◌, refl, subst, ◌≢◌, ◌↔◌, false, List, [], ◌∷◌, ◌++◌, none, arith, str_eq_iff,
  All, All-×_iff, length, contains, contains-nil, contains-cons,
}
use sync_engine_v.Base.Dict.{Dict, lookup, put, lookup-put}
use sync_engine_v.Errors.{ok}
use sync_engine_v.Protocol.{CommittedOperation}
use sync_engine_v.Invariants.Identity.{IsCommitted, assert_committed_operation-eq-ok}
use sync_engine_v.Invariants.Position.{client_position_key-injective}
use sync_engine_v.Invariants.Log.{entry_position_key, check_log, assert_contiguous_log}

module _ {Operation : Type 0} where
  -- The sequence numbers go up by one, starting behind `base`.
  abbrev pub IsContiguous : ℕ → List (CommittedOperation Operation) → Type 0
  IsContiguous base [] = Unit
  IsContiguous base (e ∷ es) = (e.sequence ≡ base + 1) × IsContiguous (base + 1) es

  pub IsContiguous-append :
      (base : ℕ) (es fs : List (CommittedOperation Operation))
      → IsContiguous base es
      → IsContiguous (base + length es) fs
      → IsContiguous base (es ++ fs)
  IsContiguous-append base [] fs h k = subst (λ n. IsContiguous n fs) (omega arith) k
  IsContiguous-append base (e ∷ es) fs h k = (
    h.0,
    IsContiguous-append (base + 1) es fs h.1 (subst (λ n. IsContiguous n fs) (omega arith) k),
  )

  -- Two entries are of different operations, at different positions of their clients.
  pub record Differs (e e' : CommittedOperation Operation) : Type 0 where
    pub ids : e.operation_id ≢ e'.operation_id
    pub places :
        e.origin.client_id ≡ e'.origin.client_id
        → e.origin.client_sequence ≢ e'.origin.client_sequence

  abbrev pub IsDistinct : List (CommittedOperation Operation) → Type 0
  IsDistinct [] = Unit
  IsDistinct (e ∷ es) = All (Differs e) es × IsDistinct es

  -- A piece of a canonical log that starts behind `base`.
  pub record IsPage (base : ℕ) (entries : List (CommittedOperation Operation)) : Type 0 where
    pub contiguous : IsContiguous base entries
    pub committed : All IsCommitted entries
    pub distinct : IsDistinct entries

  -- `e` may stand behind what a loop has seen
  pub record Fits (ids : List String) (places : Dict String) (e : CommittedOperation Operation)
      : Type 0 where
    pub fresh : contains e.operation_id ids ≡ false
    pub free : lookup (entry_position_key e) places ≡ none

  same_place :
      (e e' : CommittedOperation Operation)
      → (entry_position_key e ≢ entry_position_key e') ↔ (
          e.origin.client_id ≡ e'.origin.client_id
          → e.origin.client_sequence ≢ e'.origin.client_sequence)
  same_place e e' = (
    λ h p q. h (cc (p, q)),
    λ h p. let parts = client_position_key-injective _ _ _ _ p in h parts.0 parts.1,
  )

  pub Fits-cons :
      (ids : List String) (places : Dict String) (id : String) (e e' : CommittedOperation Operation)
      → Fits (e.operation_id ∷ ids) (put (entry_position_key e) id places) e'
        ↔ (Fits ids places e' × Differs e e')
  Fits-cons ids places id e e' = (
    λ h. ground (
      arith,
      contains-cons e'.operation_id e.operation_id ids,
      str_eq_iff e.operation_id e'.operation_id,
      lookup-put (entry_position_key e) (entry_position_key e') id places,
      str_eq_iff (entry_position_key e) (entry_position_key e'),
      (same_place e e').0,
    ),
    λ h. ground (
      arith,
      contains-cons e'.operation_id e.operation_id ids,
      str_eq_iff e.operation_id e'.operation_id,
      lookup-put (entry_position_key e) (entry_position_key e') id places,
      str_eq_iff (entry_position_key e) (entry_position_key e'),
      (same_place e e').1 h.1.places,
    ),
  )

  pub Fits-nil : (es : List (CommittedOperation Operation)) → All (Fits [] []) es
  Fits-nil [] = tt
  Fits-nil (e ∷ es) =
      (record { fresh = contains-nil e.operation_id; free = unfold lookup in refl }, Fits-nil es)

  -- a round of a loop over entries, as a predicate: the first entry fits and the rest passes
  IsPage-cons :
      (base : ℕ) (e : CommittedOperation Operation) (es : List (CommittedOperation Operation))
      → IsPage base (e ∷ es)
        ↔ ((e.sequence ≡ base + 1) × IsCommitted e × All (Differs e) es × IsPage (base + 1) es)
  IsPage-cons base e es = (
    λ h. (
      h.contiguous.0,
      h.committed.0,
      h.distinct.0,
      record { contiguous = h.contiguous.1; committed = h.committed.1; distinct = h.distinct.1 },
    ),
    λ h. record {
      contiguous = (h.0, h.3.contiguous);
      committed = (h.1, h.3.committed);
      distinct = (h.2, h.3.distinct);
    },
  )

  -- What a loop accepts after it has seen `ids` and `places`.
  pub record IsPageAfter (ids : List String) (places : Dict String) (base : ℕ)
      (entries : List (CommittedOperation Operation)) : Type 0 where
    pub fits : All (Fits ids places) entries
    pub page : IsPage base entries

  pub IsPageAfter-cons :
      (ids : List String) (places : Dict String) (id : String) (base : ℕ)
      (e : CommittedOperation Operation) (es : List (CommittedOperation Operation))
      → IsPageAfter ids places base (e ∷ es) ↔ (
          IsCommitted e
          × (e.sequence ≡ base + 1)
          × Fits ids places e
          × IsPageAfter (e.operation_id ∷ ids) (put (entry_position_key e) id places) (base + 1) es)
  IsPageAfter-cons ids places id base e es =
      let each = All-×_iff _ _ _ es (Fits-cons ids places id e) in
      (
        λ h.
            let parts = (IsPage-cons base e es).0 h.page in
            (
              parts.1,
              parts.0,
              h.fits.0,
              record { fits = each.1 (h.fits.1, parts.2); page = parts.3 },
            ),
        λ h.
            let split = each.0 h.3.fits in
            record {
              fits = (h.2, split.0);
              page = (IsPage-cons base e es).1 (h.1, h.0, split.1, h.3.page);
            },
      )

  pub IsPageAfter-nil :
      (ids : List String) (places : Dict String) (base : ℕ) → IsPageAfter ids places base []
  IsPageAfter-nil ids places base = record {
    fits = tt;
    page = record { contiguous = tt; committed = tt; distinct = tt };
  }

  check_log-cons :
      (index : ℕ) (ids : List String) (places : Dict String) (e : CommittedOperation Operation)
      (es : List (CommittedOperation Operation))
      → (check_log index ids places (e ∷ es) ≡ ok tt) ↔ (
          IsCommitted e
          × (e.sequence ≡ index + 1)
          × Fits ids places e
          × (check_log
                (index + 1)
                (e.operation_id ∷ ids)
                (put (entry_position_key e) e.operation_id places)
                es
              ≡ ok tt))
  unfolding check_log
  check_log-cons index ids places e es = (
    λ h. ground (arith, assert_committed_operation-eq-ok "committed operation" e),
    λ h. ground (arith, assert_committed_operation-eq-ok "committed operation" e),
  )

  check_log-eq-ok :
      (index : ℕ) (ids : List String) (places : Dict String)
      (es : List (CommittedOperation Operation))
      → (check_log index ids places es ≡ ok tt) ↔ IsPageAfter ids places index es
  check_log-eq-ok index ids places [] =
      (λ h. IsPageAfter-nil ids places index, λ h. unfold check_log in refl)
  check_log-eq-ok index ids places (e ∷ es) =
      let round = check_log-cons index ids places e es in
      let rest =
        check_log-eq-ok (index + 1) (e.operation_id ∷ ids)
          (put (entry_position_key e) e.operation_id places) es in
      let page = IsPageAfter-cons ids places e.operation_id index e es in
      (
        λ h. let parts = round.0 h in page.1 (parts.0, parts.1, parts.2, rest.0 parts.3),
        λ h. let parts = page.0 h in round.1 (parts.0, parts.1, parts.2, rest.1 parts.3),
      )

  -- The check of a log accepts it exactly if it counts its entries from one, its entries are usable,
  -- and no two of them share an operation id or a client position.
  pub assert_contiguous_log-eq-ok :
      (log : List (CommittedOperation Operation))
      → (assert_contiguous_log log ≡ ok tt) ↔ IsPage 0 log
  unfolding assert_contiguous_log
  assert_contiguous_log-eq-ok log = (
    λ h. ((check_log-eq-ok 0 [] [] log).0 h).page,
    λ h. (check_log-eq-ok 0 [] [] log).1 (record { fits = Fits-nil log; page = h }),
  )
