-- ===== src/Client/Queue/Served.antt =====
-- Which requests for a synchronization are served, in src/client/client.ts.
use sync_engine_v.Base.{ℕ, ◌+◌, ◌≡◌, refl, true, false, arith, if◌then◌else◌}
use sync_engine_v.Errors.{Result, ok, err}
use sync_engine_v.Client.Queue.{
  SyncQueue, new_queue, request_sync, pass_ends, promise_settles, close,
}

-- A queue with its history: how many requests were made, and how many of them before the latest pass
-- began.
pub record History : Type 0 where
  pub queue : SyncQueue
  pub made : ℕ
  pub covered : ℕ

abbrev pub new_history : History
new_history = record { queue = new_queue; made = 0; covered = 0 }

-- A request. A pass begins at once if none was in flight and one is now.
abbrev pub requested : History → SyncQueue → History
requested h queue = record {
  queue = queue;
  made = h.made + 1;
  covered = if h.queue.running then h.covered else if queue.running then h.made + 1 else h.covered;
}

-- The end of a pass. Another begins at once if the loop goes on.
abbrev pub pass_ended : History → Result (Unit {0}) → History
pass_ended h result = record h {
  queue = pass_ends result h.queue;
  covered = if (pass_ends result h.queue).running then h.made else h.covered;
}

pub data QueueStep (h : History) : History → Type 0 where
  requests : {queue : SyncQueue} → request_sync h.queue ≡ ok queue → QueueStep h (requested h queue)
  ends : (result : Result (Unit {0})) → h.queue.running ≡ true → QueueStep h (pass_ended h result)
  settles : h.queue.running ≡ false → QueueStep h (record h { queue = promise_settles h.queue })
  closes : QueueStep h (record h { queue = close h.queue })

pub data QueueSteps : History → Type 0 where
  start : QueueSteps new_history
  then_step : {h next : History} → QueueSteps h → QueueStep h next → QueueSteps next

record IsServing (h : History) : Type 0 where
  promised : h.queue.running ≡ true → h.queue.sync_promise ≡ true
  served : h.queue.running ≡ true → h.queue.sync_requested ≡ false → h.covered ≡ h.made

QueueStep-IsServing : {h next : History} → QueueStep h next → IsServing h → IsServing next
unfolding request_sync pass_ends promise_settles close
QueueStep-IsServing {h} (requests {queue = queue} asked) s = ground arith
QueueStep-IsServing {h} (ends (ok done) running) s = ground arith
QueueStep-IsServing {h} (ends (err error) running) s = ground arith
QueueStep-IsServing {h} (settles idle) s = ground arith
QueueStep-IsServing {h} closes s = record { promised = s.promised; served = s.served }

QueueSteps-IsServing : {h : History} → QueueSteps h → IsServing h
QueueSteps-IsServing start = record { promised = λ p. cc; served = λ p q. refl }
QueueSteps-IsServing (then_step steps step) = QueueStep-IsServing step (QueueSteps-IsServing steps)

-- Whenever a pass ends without an error, every request that was made so far is served: it came before
-- the pass began, or another pass begins now, before the promise settles.
pub pass_ended-covers :
    {h : History}
    → QueueSteps h
    → h.queue.running ≡ true
    → (pass_ended h (ok tt)).covered ≡ (pass_ended h (ok tt)).made
unfolding pass_ends
pass_ended-covers {h} steps running = ground (arith, QueueSteps-IsServing steps)
