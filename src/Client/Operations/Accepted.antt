-- ===== src/Client/Operations/Accepted.antt =====
-- What a client of src/client/client.ts enqueues, at the authority of src/client/row/interpreters.ts.
use sync_engine_v.Base.{ℕ, String, Bool, List, ◌≡◌, refl, sym, ap, subst, ◌∙◌, Option}
use sync_engine_v.Errors.{ok, ok-injective}
use sync_engine_v.Protocol.{ProposedOperation, accept}
use sync_engine_v.Fingerprint.{create_intent_hash}
use sync_engine_v.Replica.{EnqueueOperationInput}
use sync_engine_v.Row.{
  ReplicaSchemaContract, RowOperation, ReplicaDatabaseState, operation_json,
  normalize_row_operation, apply_row_operation, RejectInvalidOperation, decide_row,
}
use sync_engine_v.Row.Normal.Operation.{IsSchema, normalize_row_operation-again}
use sync_engine_v.Row.Total.{apply_row_operation-total}
use sync_engine_v.Client.Action.{lift, >>=-returns}
use sync_engine_v.Client.Operations.{SyncClientPorts, assert_open, enqueue}

-- The store gives back a proposal of the intent and of the hash that it is given.
abbrev pub Proposes : {World Rejection : Type 0} → SyncClientPorts World Rejection → Type 0
Proposes {World} ports =
    (input : EnqueueOperationInput RowOperation) (world : World)
    (proposal : ProposedOperation RowOperation) (after : World)
    → ports.enqueue_operation input world ≡ (ok proposal, after)
    → (proposal.intent ≡ input.intent) × (proposal.intent_hash ≡ input.intent_hash)

-- A proposal that carries the hash of its intent, that the authority accepts as it is, and that every
-- database of the schema can apply.
pub record IsAcceptable (precedes : String → String → Bool) (digest : Option (String → List ℕ))
    (schema : ReplicaSchemaContract) (proposal : ProposedOperation RowOperation) : Type 0 where
  pub hashed :
      create_intent_hash precedes digest (operation_json proposal.intent) ≡ ok proposal.intent_hash
  pub accepted :
      (reject : RejectInvalidOperation)
      → decide_row precedes schema reject proposal ≡ accept proposal.intent
  pub applied :
      (state : ReplicaDatabaseState)
      → state.schema_hash ≡ schema.schema_hash
      → (next : ReplicaDatabaseState) × (apply_row_operation precedes schema state proposal.intent
          ≡ ok next)

decide_row-normal :
    (precedes : String → String → Bool) (schema : ReplicaSchemaContract)
    (reject : RejectInvalidOperation) (proposal : ProposedOperation RowOperation)
    → normalize_row_operation precedes schema (operation_json proposal.intent) ≡ ok proposal.intent
    → decide_row precedes schema reject proposal ≡ accept proposal.intent
unfolding decide_row
decide_row-normal precedes schema reject proposal normal = rw (normal, decide_row) refl

module _ {World Rejection : Type 0} (ports : SyncClientPorts World Rejection)
    (proposes : Proposes ports) where
  -- Under a schema whose tables are well formed, a client's call to enqueue that returns has handed its
  -- store a proposal with the hash of its intent, which the authority of rows accepts as it stands and
  -- which can be applied to every database of the schema, at the authority and in the client's view.
  pub enqueue-IsAcceptable :
      (precedes : String → String → Bool) (digest : Option (String → List ℕ))
      (schema : ReplicaSchemaContract) (operation : RowOperation) (world : World)
      {proposal : ProposedOperation RowOperation} {after : World}
      → IsSchema schema
      → enqueue ports precedes digest schema operation world ≡ (ok proposal, after)
      → IsAcceptable precedes digest schema proposal
  unfolding enqueue
  enqueue-IsAcceptable precedes digest schema operation world {proposal} valid h =
      let (_, w₁, _, h₁) = >>=-returns (assert_open ports) _ world h in
      let (normalized, w₂, normal, h₂) =
        >>=-returns (lift (normalize_row_operation precedes schema (operation_json operation))) _ w₁
          h₁ in
      let (id, w₃, _, h₃) = >>=-returns ports.operation_id _ w₂ h₂ in
      let (hash, w₄, hashed, h₄) =
        >>=-returns (lift (create_intent_hash precedes digest (operation_json normalized))) _ w₃
          h₃ in
      let (stored, w₅, proposed, h₅) =
        >>=-returns
          (ports.enqueue_operation
            (record { operation_id = id; intent_hash = hash; intent = normalized }))
          _ w₄ h₄ in
      let (status, w₆, _, h₆) = >>=-returns ports.refresh _ w₅ h₅ in
      let same : stored ≡ proposal = ok-injective (ap (λ r. r.0) h₆) in
      let (intent, hash_of) = proposes _ w₄ stored w₅ proposed in
      let op : proposal.intent ≡ normalized =
        ap (λ (p : ProposedOperation RowOperation). p.intent) (sym same) ∙ intent in
      let again =
        normalize_row_operation-again precedes schema (operation_json operation) valid
          (ap (λ r. r.0) normal) in
      record {
        hashed =
            let digested = ap (λ r. r.0) hashed in
            let kept : proposal.intent_hash ≡ hash =
              ap (λ (p : ProposedOperation RowOperation). p.intent_hash) (sym same) ∙ hash_of in
            rw (op, kept) digested;
        accepted = λ reject. decide_row-normal precedes schema reject proposal (
            subst (λ op. normalize_row_operation precedes schema (operation_json op) ≡ ok op)
              (sym op) again);
        applied = λ state hash.
            let (next, applies, _) =
              apply_row_operation-total precedes schema state (operation_json operation) normalized
                valid hash (ap (λ r. r.0) normal) in
            (
              next,
              subst (λ op. apply_row_operation precedes schema state op ≡ ok next) (sym op) applies,
            );
      }
