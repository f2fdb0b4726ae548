-- ===== src/Server/Batch.antt =====
-- A batch of direct decisions: what it keeps, and that it can be repeated.
use sync_engine_v.Base.{
  ◌+◌, ◌≤◌, ◌≡◌, refl, sym, subst, inl, inr, List, [], ◌∷◌, arith, length, length-append,
}
use sync_engine_v.Errors.{ok, Result-cases, ok-injective, ok-ne-err}
use sync_engine_v.Protocol.{ProposedOperation, ProposalDecision}
use sync_engine_v.Server.{LogServer}
use sync_engine_v.Server.Direct.{Step, decide_one, decide_all}
use sync_engine_v.Server.Decides.{
  IsIndexed, DecidesTo, again, refused, appended, decide_one-DecidesTo, decide_one-IsIndexed,
  DecidesTo-decide_one,
}
use sync_engine_v.Server.Growth.{
  Extends, Extends-refl, Extends-trans, DecidesTo-Extends, DecidesTo-IsDecided,
}

module _ {State Intent Operation Rejection : Type 0} where
  -- A batch as a sequence of steps.
  pub data DecidesAll
      : LogServer State Intent Operation Rejection
        → List (ProposedOperation Intent)
        → List (ProposalDecision Operation Rejection)
        → LogServer State Intent Operation Rejection
        → Type 0 where
    done : {server : LogServer State Intent Operation Rejection} → DecidesAll server [] [] server
    next :
        {p : ProposedOperation Intent} {ps : List (ProposedOperation Intent)}
        {d : ProposalDecision Operation Rejection}
        {ds : List (ProposalDecision Operation Rejection)}
        {server middle last : LogServer State Intent Operation Rejection}
        → DecidesTo server p (d, middle)
        → DecidesAll middle ps ds last
        → DecidesAll server (p ∷ ps) (d ∷ ds) last

  pub decide_all-DecidesAll :
      (server : LogServer State Intent Operation Rejection) (ps : List (ProposedOperation Intent))
      {r : List (ProposalDecision Operation Rejection) × LogServer State Intent Operation Rejection}
      → decide_all server ps ≡ ok r
      → DecidesAll server ps r.0 r.1
  unfolding decide_all
  decide_all-DecidesAll server [] h =
      subst (λ r. DecidesAll server [] r.0 r.1) (ok-injective h) done
  decide_all-DecidesAll server (p ∷ ps) h = elim (Result-cases (decide_one server p)) [
    | inl (e, failed) ↦ absurd (ok-ne-err (sym (rw failed at h)))
    | inr ((d, middle), first) ↦
        let h₁ = rw first at h in
        elim (Result-cases (decide_all middle ps)) [
          | inl (e, failed) ↦ absurd (ok-ne-err (sym (rw failed at h₁)))
          | inr ((ds, last), others) ↦
              subst (λ r. DecidesAll server (p ∷ ps) r.0 r.1) (ok-injective (rw others at h₁))
                (next (decide_one-DecidesTo server p first)
                  (decide_all-DecidesAll middle ps others))
        ]
  ]

  pub DecidesAll-IsIndexed :
      {server last : LogServer State Intent Operation Rejection}
      {ps : List (ProposedOperation Intent)} {ds : List (ProposalDecision Operation Rejection)}
      → DecidesAll server ps ds last
      → IsIndexed server
      → IsIndexed last
  DecidesAll-IsIndexed done i = i
  DecidesAll-IsIndexed (next step rest) i =
      DecidesAll-IsIndexed rest (decide_one-IsIndexed _ _ step i)

  pub DecidesAll-Extends :
      {server last : LogServer State Intent Operation Rejection}
      {ps : List (ProposedOperation Intent)} {ds : List (ProposalDecision Operation Rejection)}
      → DecidesAll server ps ds last
      → Extends last server
  DecidesAll-Extends done = Extends-refl _
  DecidesAll-Extends (next step rest) =
      Extends-trans (DecidesTo-Extends _ _ step) (DecidesAll-Extends rest)

  DecidesTo-length :
      (server : LogServer State Intent Operation Rejection) (p : ProposedOperation Intent)
      {r : Step State Intent Operation Rejection}
      → DecidesTo server p r
      → length r.1.log ≤ length server.log + 1
  DecidesTo-length server p (again stored known d same) = rw (← same) (omega arith)
  DecidesTo-length server p (refused reason fresh d same) = rw (← same) (omega arith)
  DecidesTo-length server p (appended operation next_state fresh d applied same) =
      rw (← same, length-append) (omega arith)

  -- A batch adds at most an entry for each of its proposals.
  pub DecidesAll-length :
      {server last : LogServer State Intent Operation Rejection}
      {ps : List (ProposedOperation Intent)} {ds : List (ProposalDecision Operation Rejection)}
      → DecidesAll server ps ds last
      → length last.log ≤ length server.log + length ps
  DecidesAll-length done = omega arith
  DecidesAll-length (next step rest) =
      omega (arith, DecidesTo-length _ _ step, DecidesAll-length rest)

  -- On a server that has all that the batch left noted, the batch has the same decisions and changes
  -- nothing.
  pub decide_all-again :
      {server last : LogServer State Intent Operation Rejection}
      {ps : List (ProposedOperation Intent)} {ds : List (ProposalDecision Operation Rejection)}
      → DecidesAll server ps ds last
      → (later : LogServer State Intent Operation Rejection) → Extends later last
      → decide_all later ps ≡ ok (ds, later)
  unfolding decide_all
  decide_all-again done later e = refl
  decide_all-again (next step rest) later e =
      let (stored, noted, repeated) = DecidesTo-IsDecided _ _ step in
      let kept = (Extends-trans (DecidesAll-Extends rest) e).decisions _ stored noted in
      let first = DecidesTo-decide_one later _ {r = (_, later)} (again stored kept repeated refl) in
      rw (first, decide_all-again rest later e)
