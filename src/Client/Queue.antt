-- ===== src/Client/Queue.antt =====
-- src/client/client.ts: `requestSync` and `runRequestedSync`, which join requests that are made while a
-- synchronization is in flight. The steps are what runs between two awaits. Listeners of the view do not
-- request while they are called.
pub mod Served
use sync_engine_v.Base.{Bool, true, false, if◌then◌else◌}
use sync_engine_v.Errors.{SyncError, Result, ok, err, sync_client_closed, throw_if, ◌>>◌}

-- The variables of a client: whether a synchronization is asked for, whether there is a promise of one,
-- whether the loop behind the promise is in a pass, and whether the client is closed.
pub record SyncQueue : Type 0 where
  pub sync_requested : Bool
  pub sync_promise : Bool
  pub running : Bool
  pub closed : Bool

abbrev pub new_queue : SyncQueue
new_queue = record { sync_requested = false; sync_promise = false; running = false; closed = false }

-- `requestSync`: with no promise there is one now, and its first pass takes the request at once.
unfoldable pub request_sync : SyncQueue → Result SyncQueue
request_sync queue =
    throw_if queue.closed sync_client_closed
    >> ok (
        if queue.sync_promise
        then record queue { sync_requested = true }
        else record queue { sync_requested = false; sync_promise = true; running = true })

-- the end of a pass: an error leaves the loop; else it looks for another request, and takes it
unfoldable pub pass_ends : Result (Unit {0}) → SyncQueue → SyncQueue
pass_ends (err error) queue = record queue { running = false }
pass_ends (ok done) queue =
    if queue.sync_requested
    then record queue { sync_requested = false }
    else record queue { running = false }

-- the callback of `finally`, some time after the loop is left
unfoldable pub promise_settles : SyncQueue → SyncQueue
promise_settles queue = record queue { sync_promise = false }

-- the first statements of `close`
unfoldable pub close : SyncQueue → SyncQueue
close queue = record queue { closed = true }
