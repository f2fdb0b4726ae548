-- ===== src/System/Authority.antt =====
-- What the authority of src/server.ts gives the replicas of src/replica.ts: a canonical log, and
-- responses that are authentic for it, however late they arrive.
use sync_engine_v.Base.{
  ℕ, zero, suc, ◌+◌, ◌-◌, ◌≡◌, refl, sym, ap, subst, ◌∙◌, List, [], ◌∷◌, ◌++◌, Option, none, some,
  some-injective, arith, All, All-of-get_elem?, All-get_elem?, get_elem?, get_elem?-append_left,
  get_elem?-drop, take, drop, slice, min,
}
use sync_engine_v.Base.Dict.{lookup}
use sync_engine_v.Limits.{ProtocolLimits}
use sync_engine_v.Protocol.{
  ProposedOperation, CommittedOperation, ProposalOutcome, accepted as accepts, rejected,
  ProposalDecision, SyncRequest, SyncResponse,
}
use sync_engine_v.Invariants.Identity.{entry_of}
use sync_engine_v.Invariants.Log.Valid.{IsContiguous}
use sync_engine_v.Invariants.Response.Valid.{IsResponse}
use sync_engine_v.Server.{LogServer, StoredProposalDecision}
use sync_engine_v.Server.Growth.{Extends}
use sync_engine_v.Server.Sync.{Synchronizes}
use sync_engine_v.Server.Consistent.{IsConsistent, IsLogged, stored_for}
use sync_engine_v.Server.Total.{AnswersAll, DecidesAll-AnswersAll}
use sync_engine_v.Replica.{OutboxEntry}
use sync_engine_v.Replica.Find.{id_of}
use sync_engine_v.Replica.Canonical.{IsOwn, Holds, IsTrue, IsSound}
use sync_engine_v.Replica.Follow.{IsCanonical, FromLog}
use sync_engine_v.Replica.Converge.{IsAuthentic}

module _ {Operation : Type 0} where
  IsContiguous-get_elem? :
      (base : ℕ) (log : List (CommittedOperation Operation))
      → IsContiguous base log
      → (i : ℕ) (c : CommittedOperation Operation) → get_elem? log i ≡ some c
      → c.sequence ≡ base + i + 1
  IsContiguous-get_elem? base [] h i c there = absurd (ground arith)
  IsContiguous-get_elem? base (e ∷ es) h zero c there =
      let same : e ≡ c = some-injective there in
      omega (arith, ap (λ (e : CommittedOperation Operation). e.sequence) same, h.0)
  IsContiguous-get_elem? base (e ∷ es) h (suc i) c there =
      omega (arith, IsContiguous-get_elem? (base + 1) es h.1 i c there)

  -- A slice of a log stands in every log that extends it.
  FromLog-take :
      (log : List (CommittedOperation Operation)) (n i : ℕ)
      (cs : List (CommittedOperation Operation))
      → ((j : ℕ) (c : CommittedOperation Operation)
          → get_elem? cs j ≡ some c
          → get_elem? log (i + j) ≡ some c)
      → FromLog log i (take n cs)
  FromLog-take log zero i cs h = tt
  FromLog-take log (suc n) i [] h = tt
  FromLog-take log (suc n) i (c ∷ cs) h = (
    subst (λ m. get_elem? log m ≡ some c) (omega arith) (h 0 c refl),
    FromLog-take log n (suc i) cs
        λ j d there. subst (λ m. get_elem? log m ≡ some d) (omega arith) (h (suc j) d there),
  )

  FromLog-slice :
      (log added : List (CommittedOperation Operation)) (from to : ℕ)
      → FromLog (log ++ added) from (slice from to log)
  FromLog-slice log added from to =
      FromLog-take (log ++ added) (to - from) from (drop from log) λ j c there.
        get_elem?-append_left log added (from + j) (sym (get_elem?-drop from log j) ∙ there)

module _ {State Intent Operation Rejection : Type 0} (initial : State)
    (server : LogServer State Intent Operation Rejection) (c : IsConsistent initial server) where
  -- The log of a consistent authority counts from one, has no operation twice, and replays to its
  -- state.
  pub IsConsistent-IsCanonical :
      IsCanonical server.interpreter.apply initial server.state server.log
  IsConsistent-IsCanonical = record {
    counted =
        λ i e there. omega (arith, IsContiguous-get_elem? 0 server.log c.contiguous i e there);
    unique = λ i j e e' at at' same.
        let records : some (stored_for {Rejection = Rejection} e) ≡ some (stored_for e') =
          sym (c.recorded i e at)
          ∙ ap (λ id. lookup id server.decisions_by_operation_id) same
          ∙ c.recorded j e' at' in
        let number : e.sequence ≡ e'.sequence = cc records in
        omega (
          arith,
          number,
          IsContiguous-get_elem? 0 server.log c.contiguous i e at,
          IsContiguous-get_elem? 0 server.log c.contiguous j e' at',
        );
    replays = c.replays;
  }

  -- What is on record holds of a proposal in the outbox of a replica.
  recorded-Holds :
      (k : ℕ) (e : OutboxEntry Intent Operation)
      (stored : StoredProposalDecision Operation Rejection)
      (outcome : ProposalOutcome Operation Rejection)
      → IsOwn server.log k e
      → lookup (id_of e) server.decisions_by_operation_id ≡ some stored
      → stored.decision.outcome ≡ outcome
      → Holds server.log e.proposal outcome
  recorded-Holds k e stored (accepts n op) own known same =
      let f = c.filed (id_of e) stored known in
      let (i, position, there) = subst (IsLogged server.log stored.identity) same f.logged in
      let identity = (own.matches i _ there f.identity).1 in
      record {
        index = i;
        position = position;
        entry = subst (λ s. get_elem? server.log i ≡ some (entry_of s n op)) identity there;
      }
  recorded-Holds k e stored (rejected reason) own known same = λ i entry there own_id.
      let records : some (stored_for {Rejection = Rejection} entry) ≡ some stored =
        sym (c.recorded i entry there)
        ∙ ap (λ id. lookup id server.decisions_by_operation_id) own_id
        ∙ known in
      let outcomes : accepts entry.sequence entry.operation ≡ stored.decision.outcome =
        cc records in
      cc (outcomes, same)

  -- The decisions that the authority gives are so for every outbox that agrees with its log.
  AnswersAll-IsTrue :
      (k : ℕ) (outbox : List (OutboxEntry Intent Operation)) (ps : List (ProposedOperation Intent))
      (ds : List (ProposalDecision Operation Rejection))
      → IsSound server.log k outbox
      → AnswersAll server ps ds
      → All (λ e. All (IsTrue server.log e.proposal) ds) outbox
  AnswersAll-IsTrue k outbox ps ds sound answers =
      All-of-get_elem? (λ e. All (IsTrue server.log e.proposal) ds) outbox
        λ i e there.
          each e (All-get_elem? (IsOwn server.log k) outbox i sound.own there) ps ds answers
    where
      each :
          (e : OutboxEntry Intent Operation)
          → IsOwn server.log k e
          → (ps : List (ProposedOperation Intent))
            (ds : List (ProposalDecision Operation Rejection))
          → AnswersAll server ps ds
          → All (IsTrue server.log e.proposal) ds
      each e own [] [] a = tt
      each e own [] (d ∷ ds) a = absurd a
      each e own (p ∷ ps) [] a = absurd a
      each e own (p ∷ ps) (d ∷ ds) a = (
        λ same.
            let filed = (c.filed p.operation_id a.0.stored a.0.known).decision in
            let id : p.operation_id ≡ id_of e = cc (filed, a.0.decision, same) in
            subst (Holds server.log e.proposal)
              (ap (λ (d : ProposalDecision Operation Rejection). d.outcome) a.0.decision)
              (recorded-Holds k e a.0.stored a.0.stored.decision.outcome own
                (sym (ap (λ id. lookup id server.decisions_by_operation_id) id) ∙ a.0.known) refl),
        each e own ps ds a.1,
      )

  -- What the authority answers holds of every later state of it as well.
  AnswersAll-mono :
      (old : LogServer State Intent Operation Rejection)
      → Extends server old
      → (ps : List (ProposedOperation Intent)) (ds : List (ProposalDecision Operation Rejection))
      → AnswersAll old ps ds
      → AnswersAll server ps ds
  AnswersAll-mono old x [] [] a = tt
  AnswersAll-mono old x [] (d ∷ ds) a = absurd a
  AnswersAll-mono old x (p ∷ ps) [] a = absurd a
  AnswersAll-mono old x (p ∷ ps) (d ∷ ds) a = (
    record {
      stored = a.0.stored;
      known = x.decisions p.operation_id a.0.stored a.0.known;
      decision = a.0.decision;
    },
    AnswersAll-mono old x ps ds a.1,
  )

module _ {Operation Rejection : Type 0} where
  -- a response that is valid under limits is valid without
  IsResponse-none :
      (r : SyncResponse Operation Rejection) (limits : Option ProtocolLimits)
      → IsResponse r limits
      → IsResponse r none
  IsResponse-none r limits v = record {
    cursors = record {
      safe_head = v.cursors.safe_head;
      base_through = v.cursors.base_through;
      through_head = v.cursors.through_head;
      page = v.cursors.page;
      advances = v.cursors.advances;
      few_entries = tt;
      few_decisions = tt;
    };
    page = v.page;
    decisions = v.decisions;
    answer = v.answer;
  }

module _ {State Intent Operation Rejection : Type 0} where
  -- A response of the authority stays authentic for every later, consistent state of the authority
  -- and every outbox that agrees with its log: it is valid, its entries stand in that log, and its
  -- decisions hold there.
  pub Synchronizes-IsAuthentic :
      (initial : State) (server last later : LogServer State Intent Operation Rejection)
      (request : SyncRequest Intent) (response : SyncResponse Operation Rejection) (k : ℕ)
      (outbox : List (OutboxEntry Intent Operation))
      → Synchronizes server request response last
      → IsConsistent initial later
      → Extends later last
      → IsSound later.log k outbox
      → IsAuthentic later.log outbox response
  Synchronizes-IsAuthentic initial server last later request response k outbox s c x sound =
      let page_size = min request.maximum_entries last.limits.maximum_entries_per_response in
      let to = request.base_sequence + page_size in
      record {
        valid = IsResponse-none response (some server.limits) s.checked;
        entries =
            subst
              (λ (r : SyncResponse Operation Rejection).
                FromLog later.log r.requested_base_sequence r.entries)
              s.page
              (subst
                (λ l. FromLog l request.base_sequence (slice request.base_sequence to last.log))
                (sym x.log) (FromLog-slice last.log x.added request.base_sequence to));
        decisions =
            AnswersAll-IsTrue initial later c k outbox request.proposals response.decisions sound (
              AnswersAll-mono initial later c last x request.proposals response.decisions
                (DecidesAll-AnswersAll s.steps));
      }
