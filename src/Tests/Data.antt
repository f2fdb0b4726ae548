-- ===== src/Tests/Data.antt =====
-- A counter: an operation adds a number, and the authority of src/server.ts rejects large ones. Two
-- clients, `alice` and `bob`, submit operations.
use sync_engine_v.Base.{
  ℕ, ◌+◌, String, true, false, [], ◌∷◌, ◌++◌, none, some, leb, ◌==◌, if◌then◌else◌,
}
use sync_engine_v.Errors.{ok}
use sync_engine_v.Protocol.{
  OperationSubmissionIdentity, ProposedOperation, CommittedOperation, accepted as accepts, rejected,
  ProposalDecision, accept, reject, SyncRequest, SyncResponse,
}
use sync_engine_v.Invariants.Identity.{entry_of}
use sync_engine_v.Server.{LogInterpreter, LogServer, InMemoryLogServerOptions}
use sync_engine_v.Replica.{
  pending, ReplicaState, ReplicaInterpreter, MergeSyncResult, EnqueueOperationInput,
}

abbrev pub interpreter : LogInterpreter ℕ ℕ ℕ String
interpreter = record {
  decide = λ state proposal.
      if leb proposal.intent 100 then ok (accept proposal.intent) else ok (reject "too large");
  apply = λ state operation. ok (state + operation);
}

abbrev pub replica_interpreter : ReplicaInterpreter ℕ ℕ ℕ
replica_interpreter = record {
  apply_committed = λ state operation. ok (state + operation);
  apply_optimistic = λ state intent. ok (state + intent);
  are_committed_operations_equal = λ a b. a == b;
}

abbrev pub options : InMemoryLogServerOptions ℕ ℕ ℕ String
options = record {
  initial_state = 0;
  interpreter = interpreter;
  limits = record { maximum_proposals_per_request = some 2; maximum_entries_per_response = none };
  snapshot = none;
}

abbrev pub new_server : LogServer ℕ ℕ ℕ String
new_server = record {
  interpreter = interpreter;
  limits = record { maximum_proposals_per_request = 2; maximum_entries_per_response = 256 };
  state = 0;
  log = [];
  decisions_by_operation_id = [];
  operation_id_by_client_position = [];
}

abbrev pub submission : String → String → ℕ → OperationSubmissionIdentity
submission operation_id client_id client_sequence = record {
  identity = record {
    operation_id = operation_id;
    client_id = client_id;
    client_sequence = client_sequence;
  };
  intent_hash = "hash";
}

abbrev pub small : ProposedOperation ℕ
small = record { submission = submission "small" "alice" 1; intent = 5 }

abbrev pub large : ProposedOperation ℕ
large = record { submission = submission "large" "alice" 2; intent = 500 }

abbrev pub other : ProposedOperation ℕ
other = record { submission = submission "other" "bob" 1; intent = 7 }

abbrev pub small_entry : CommittedOperation ℕ
small_entry = entry_of small.submission 1 5

abbrev pub other_entry : CommittedOperation ℕ
other_entry = entry_of other.submission 2 7

abbrev pub small_decision : ProposalDecision ℕ String
small_decision = record { operation_id = "small"; outcome = accepts 1 5 }

abbrev pub large_decision : ProposalDecision ℕ String
large_decision = record { operation_id = "large"; outcome = rejected "too large" }

-- what `alice` asks, and what she is told
abbrev pub request : SyncRequest ℕ
request = record { base_sequence = 0; maximum_entries = 10; proposals = small ∷ large ∷ [] }

abbrev pub other_request : SyncRequest ℕ
other_request = record { base_sequence = 0; maximum_entries = 10; proposals = other ∷ [] }

abbrev pub response : SyncResponse ℕ String
response = record {
  requested_base_sequence = 0;
  through_sequence = 1;
  head_sequence = 1;
  entries = small_entry ∷ [];
  decisions = small_decision ∷ large_decision ∷ [];
}

abbrev pub alice : ReplicaState ℕ ℕ ℕ
alice = record {
  client_id = "alice";
  next_client_sequence = 3;
  confirmed_sequence = 0;
  confirmed_state = 0;
  confirmed_log = [];
  outbox =
      record { proposal = small; status = pending }
      ∷ record { proposal = large; status = pending }
      ∷ [];
}

-- the authority after `alice`'s request, and after `bob`'s as well
abbrev pub served : LogServer ℕ ℕ ℕ String
served = record {
  interpreter = interpreter;
  limits = record { maximum_proposals_per_request = 2; maximum_entries_per_response = 256 };
  state = 5;
  log = small_entry ∷ [];
  decisions_by_operation_id =
      ("small", record { identity = small.submission; decision = small_decision })
      ∷ ("large", record { identity = large.submission; decision = large_decision })
      ∷ [];
  operation_id_by_client_position = ("alice\01", "small") ∷ ("alice\02", "large") ∷ [];
}

abbrev pub retry : SyncRequest ℕ
retry = record { base_sequence = 1; maximum_entries = 10; proposals = small ∷ large ∷ [] }

-- from ahead of the log
abbrev pub unknown_request : SyncRequest ℕ
unknown_request = record { base_sequence = 9; maximum_entries = 10; proposals = [] }

abbrev pub other_decision : ProposalDecision ℕ String
other_decision = record { operation_id = "other"; outcome = accepts 2 7 }

abbrev pub both_served : LogServer ℕ ℕ ℕ String
both_served = record served {
  state = 12;
  log = small_entry ∷ other_entry ∷ [];
  decisions_by_operation_id =
      ("small", record { identity = small.submission; decision = small_decision })
      ∷ ("large", record { identity = large.submission; decision = large_decision })
      ∷ ("other", record { identity = other.submission; decision = other_decision })
      ∷ [];
  operation_id_by_client_position =
      ("alice\01", "small") ∷ ("alice\02", "large") ∷ ("bob\01", "other") ∷ [];
}

-- `alice` once she has merged her response
abbrev pub alice_merged : ReplicaState ℕ ℕ ℕ
alice_merged = record alice {
  confirmed_sequence = 1;
  confirmed_state = 5;
  confirmed_log = small_entry ∷ [];
  outbox = [];
}

abbrev pub alice_result : MergeSyncResult ℕ ℕ ℕ String
alice_result = record {
  state = alice_merged;
  newly_resolved = small_decision ∷ large_decision ∷ [];
  caught_up_to_observed_head = true;
}

abbrev pub alice_caught_up : ReplicaState ℕ ℕ ℕ
alice_caught_up = record alice {
  confirmed_sequence = 2;
  confirmed_state = 12;
  confirmed_log = other_entry ∷ [];
  outbox = [];
}

-- a pull of the whole log, and one of its first entry
abbrev pub pull : SyncRequest ℕ
pull = record { base_sequence = 0; maximum_entries = 10; proposals = [] }

abbrev pub pulled : SyncResponse ℕ String
pulled = record {
  requested_base_sequence = 0;
  through_sequence = 2;
  head_sequence = 2;
  entries = small_entry ∷ other_entry ∷ [];
  decisions = [];
}

abbrev pub part_pulled : SyncResponse ℕ String
part_pulled = record pulled { through_sequence = 1; entries = small_entry ∷ [] }

-- `alice` once she has merged the latter
abbrev pub alice_part_result : MergeSyncResult ℕ ℕ ℕ String
alice_part_result = record {
  state = record alice_merged { outbox = record { proposal = large; status = pending } ∷ [] };
  newly_resolved = small_decision ∷ [];
  caught_up_to_observed_head = false;
}

abbrev pub third : EnqueueOperationInput ℕ
third = record { operation_id = "third"; intent_hash = "hash"; intent = 1 }

abbrev pub alice_enqueued : ReplicaState ℕ ℕ ℕ
alice_enqueued = record alice {
  next_client_sequence = 4;
  outbox =
      alice.outbox
      ++ record {
        proposal = record { submission = submission "third" "alice" 3; intent = 1 };
        status = pending;
      }
        ∷ [];
}

abbrev pub new_replica : ReplicaState ℕ ℕ ℕ
new_replica = record {
  client_id = "carol";
  next_client_sequence = 1;
  confirmed_sequence = 0;
  confirmed_state = 0;
  confirmed_log = [];
  outbox = [];
}

-- `small` again, with another intent
abbrev pub conflicting : ProposedOperation ℕ
conflicting = record {
  submission = record {
    identity = record { operation_id = "small"; client_id = "alice"; client_sequence = 1 };
    intent_hash = "changed";
  };
  intent = 6;
}

abbrev pub conflicting_request : SyncRequest ℕ
conflicting_request = record {
  base_sequence = 0;
  maximum_entries = 10;
  proposals = other ∷ conflicting ∷ [];
}
