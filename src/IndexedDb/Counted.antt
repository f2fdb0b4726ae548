-- ===== src/IndexedDb/Counted.antt =====
-- The counters of `statusFromRecord` in src/indexeddb/record.ts.
use sync_engine_v.Base.{◌+◌, ◌≡◌, refl, List, [], ◌∷◌, ◌++◌, arith, length}
use sync_engine_v.Protocol.{ProposedOperation}
use sync_engine_v.Replica.{OutboxStatus, pending, accepted, OutboxEntry}
use sync_engine_v.Replica.Prepare.{pending_first, pending_of}
use sync_engine_v.IndexedDb.Record.{OutboxCounts, count_entry, count_outbox}

module _ {Intent Operation : Type 0} where
  count_entry_lem :
      (counts : OutboxCounts) (e : OutboxEntry Intent Operation)
      (es : List (OutboxEntry Intent Operation)) (status : OutboxStatus Operation)
      → e.status ≡ status
      → ((count_entry counts e).pending_count + length (pending_of es)
          ≡ counts.pending_count + length (pending_first e.status e.proposal (pending_of es)))
        × ((count_entry counts e).pending_count + (count_entry counts e).accepted_count
            ≡ counts.pending_count + counts.accepted_count + 1)
  count_entry_lem counts e es pending s = rw s (omega arith, omega arith)
  count_entry_lem counts e es (accepted n o) s = rw s (omega arith, omega arith)

  -- What waits is counted, and with what is accepted it is the whole outbox.
  pub count_outbox_lem :
      (counts : OutboxCounts) (es : List (OutboxEntry Intent Operation))
      → ((count_outbox counts es).pending_count ≡ counts.pending_count + length (pending_of es))
        × ((count_outbox counts es).pending_count + (count_outbox counts es).accepted_count
            ≡ counts.pending_count + counts.accepted_count + length es)
  unfolding count_outbox
  count_outbox_lem counts [] = (omega arith, omega arith)
  count_outbox_lem counts (e ∷ es) =
      let first = count_entry_lem counts e es e.status refl in
      let rest = count_outbox_lem (count_entry counts e) es in
      (omega (arith, first.0, rest.0), omega (arith, first.1, rest.1))

  -- A new operation waits.
  pub count_outbox-append :
      (counts : OutboxCounts) (es : List (OutboxEntry Intent Operation))
      (p : ProposedOperation Intent)
      → (count_outbox counts (es ++ record { proposal = p; status = pending } ∷ [])).pending_count
        ≡ (count_outbox counts es).pending_count + 1
  unfolding count_outbox
  count_outbox-append counts [] p = refl
  count_outbox-append counts (e ∷ es) p = count_outbox-append (count_entry counts e) es p
