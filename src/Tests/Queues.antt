-- ===== src/Tests/Queues.antt =====
-- Runs of the queue of synchronizations of src/client/client.ts.
use sync_engine_v.Base.{◌≡◌, refl, true, false}
use sync_engine_v.Errors.{ok, ◌>>=◌}
use sync_engine_v.Client.{SyncQueue, new_queue, request_sync, pass_ends, promise_settles}
use sync_engine_v.Client.Queue.Served.{
  History, new_history, requested, pass_ended, requests, start, then_step, pass_ended-covers,
}

abbrev in_flight : SyncQueue
in_flight = record { sync_requested = false; sync_promise = true; running = true; closed = false }

abbrev asked_again : SyncQueue
asked_again = record { sync_requested = true; sync_promise = true; running = true; closed = false }

first_asked : request_sync new_queue ≡ ok in_flight
unfolding request_sync
first_asked = refl

second_asked : request_sync in_flight ≡ ok asked_again
unfolding request_sync
second_asked = refl

abbrev twice : History
twice = requested (requested new_history in_flight) asked_again

pass_ended-covers_example : (pass_ended twice (ok tt)).covered ≡ (pass_ended twice (ok tt)).made
pass_ended-covers_example =
    pass_ended-covers (then_step (then_step start (requests first_asked)) (requests second_asked))
      refl

-- A request between the end of the loop and the settling of its promise waits for another request.
dropped :
    request_sync (pass_ends (ok tt) in_flight) >>= (λ queue. ok (promise_settles queue))
    ≡ ok (record new_queue { sync_requested = true })
unfolding request_sync pass_ends promise_settles
dropped = refl
