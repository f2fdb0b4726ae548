-- ===== src/Server/Growth.antt =====
-- What every decision of the authority keeps: the log only grows at its end, and decisions and
-- client positions, once noted, stay.
use sync_engine_v.Base.{
  String, ◌≡◌, refl, sym, subst, ◌∙◌, List, [], ◌++◌, append-nil, append_assoc, none, some, arith,
  str_eq_iff, str_eq_refl,
}
use sync_engine_v.Base.Dict.{lookup, put, lookup-put, lookup-put_self}
use sync_engine_v.Errors.{ok}
use sync_engine_v.Protocol.{ProposedOperation, CommittedOperation, ProposalDecision}
use sync_engine_v.Server.{LogServer, StoredProposalDecision, repeat_decision}
use sync_engine_v.Server.Direct.{Step}
use sync_engine_v.Server.Decides.{DecidesTo, again, refused, appended}

module _ {Intent Operation Rejection : Type 0} where
  repeat_decision_self :
      (p : ProposedOperation Intent) (decision : ProposalDecision Operation Rejection)
      → repeat_decision (record { identity = p.submission; decision = decision }) p ≡ ok decision
  unfolding repeat_decision
  repeat_decision_self p decision =
      ground (arith, str_eq_refl p.operation_id, str_eq_refl p.client_id, str_eq_refl p.intent_hash)

module _ {State Intent Operation Rejection : Type 0} where
  -- `new` has all that `old` has noted, and what `old` has logged in front.
  pub record Extends (new old : LogServer State Intent Operation Rejection) : Type 0 where
    pub interpreter : new.interpreter ≡ old.interpreter
    pub limits : new.limits ≡ old.limits
    pub added : List (CommittedOperation Operation)
    pub log : new.log ≡ old.log ++ added
    pub decisions :
        (id : String) (stored : StoredProposalDecision Operation Rejection)
        → lookup id old.decisions_by_operation_id ≡ some stored
        → lookup id new.decisions_by_operation_id ≡ some stored

  pub Extends-refl : (server : LogServer State Intent Operation Rejection) → Extends server server
  Extends-refl server = record {
    interpreter = refl;
    limits = refl;
    added = [];
    log = sym (append-nil server.log);
    decisions = λ id stored h. h;
  }

  pub Extends-trans :
      {a b c : LogServer State Intent Operation Rejection} → Extends b a → Extends c b → Extends c a
  Extends-trans {a} {b} {c} f g = record {
    interpreter = g.interpreter ∙ f.interpreter;
    limits = g.limits ∙ f.limits;
    added = f.added ++ g.added;
    log = g.log ∙ rw f.log (append_assoc a.log f.added g.added);
    decisions = λ id stored h. g.decisions id stored (f.decisions id stored h);
  }

  -- a new decision overwrites none
  put_new :
      (server : LogServer State Intent Operation Rejection) (k id : String)
      (new stored : StoredProposalDecision Operation Rejection)
      → lookup k server.decisions_by_operation_id ≡ none
      → lookup id server.decisions_by_operation_id ≡ some stored
      → lookup id (put k new server.decisions_by_operation_id) ≡ some stored
  put_new server k id new stored h e =
      ground (arith, lookup-put k id new server.decisions_by_operation_id, str_eq_iff k id)

  pub DecidesTo-Extends :
      (server : LogServer State Intent Operation Rejection) (p : ProposedOperation Intent)
      {r : Step State Intent Operation Rejection}
      → DecidesTo server p r
      → Extends r.1 server
  DecidesTo-Extends server p {r} (again stored e d same) =
      subst (λ s. Extends s server) same (Extends-refl server)
  DecidesTo-Extends server p {r} (refused reason fresh d same) =
      subst (λ (s : Step State Intent Operation Rejection). Extends s.1 server) same
        (record {
          interpreter = refl;
          limits = refl;
          added = [];
          log = sym (append-nil server.log);
          decisions = λ id stored. put_new server p.operation_id id _ stored fresh.unknown;
        })
  DecidesTo-Extends server p {r} (appended operation next_state fresh d applied same) =
      subst (λ (s : Step State Intent Operation Rejection). Extends s.1 server) same
        (record {
          interpreter = refl;
          limits = refl;
          added = _;
          log = refl;
          decisions = λ id stored. put_new server p.operation_id id _ stored fresh.unknown;
        })

  -- Deciding `p` again gives the decision that it has on record.
  abbrev pub IsDecided :
      LogServer State Intent Operation Rejection
      → ProposedOperation Intent
      → ProposalDecision Operation Rejection
      → Type 0
  IsDecided server p decision =
      (stored : StoredProposalDecision Operation Rejection) × (lookup p.operation_id
          server.decisions_by_operation_id
        ≡ some stored)
      × (repeat_decision stored p ≡ ok decision)

  pub DecidesTo-IsDecided :
      (server : LogServer State Intent Operation Rejection) (p : ProposedOperation Intent)
      {r : Step State Intent Operation Rejection}
      → DecidesTo server p r
      → IsDecided r.1 p r.0
  DecidesTo-IsDecided server p {r} (again stored e d same) = (stored, rw (← same) e, d)
  DecidesTo-IsDecided server p {r} (refused reason fresh d same) =
      subst (λ (s : Step State Intent Operation Rejection). IsDecided s.1 p s.0) same
        (
          _,
          lookup-put_self p.operation_id _ server.decisions_by_operation_id,
          repeat_decision_self p _,
        )
  DecidesTo-IsDecided server p {r} (appended operation next_state fresh d applied same) =
      subst (λ (s : Step State Intent Operation Rejection). IsDecided s.1 p s.0) same
        (
          _,
          lookup-put_self p.operation_id _ server.decisions_by_operation_id,
          repeat_decision_self p _,
        )
