-- ===== src/Client/View/Coherent.antt =====
-- What the view of src/client/replica-view.ts shows at any time.
use sync_engine_v.Base.{
  ℕ, suc, String, Bool, ◌+◌, ◌≡◌, refl, subst, ◌∙◌, true, false, List, [], ◌∷◌, Option, some, none,
  arith, All, length,
}
use sync_engine_v.Errors.{SyncError, ok, err, >>-eq-ok, ok-injective}
use sync_engine_v.IndexedDb.Store.{IndexedDbReplicaViewSnapshot}
use sync_engine_v.Row.{ReplicaSchemaContract, ReplicaDatabaseState, assert_database_state_schema}
use sync_engine_v.Client.View.{
  SyncClientPhase, ReplicaViewRefreshOptions, ReplicaView, make_snapshot, emit, create_replica_view,
  refresh, start_task, finish_task, set_phase, subscribe, unsubscribe, close_view,
}

-- what a store's transaction reads for a view
abbrev pub Read : Type 0
Read = IndexedDbReplicaViewSnapshot ReplicaDatabaseState

module _ (locale_precedes : String → String → Bool) (schema : ReplicaSchemaContract)
    (initial : Read) where
  -- A view, with all that it has read from the store since it was created, the latest first. What
  -- stands between two awaits is one step, and the steps of different calls may come in any order.
  pub data ViewSteps : List Read → ReplicaView → Type 0 where
    created :
        {view : ReplicaView}
        → create_replica_view locale_precedes schema initial ≡ ok view
        → ViewSteps [] view
    requested :
        {reads : List Read} {view : ReplicaView} (options : Option ReplicaViewRefreshOptions)
        → ViewSteps reads view
        → ViewSteps reads (refresh locale_precedes schema options view)
    started :
        {reads : List Read} {view : ReplicaView} (options : Option ReplicaViewRefreshOptions)
        (rest : List (Option ReplicaViewRefreshOptions))
        → view.waiting ≡ options ∷ rest
        → view.is_reading ≡ false
        → ViewSteps reads view
        → ViewSteps reads (start_task locale_precedes schema options rest view)
    failed :
        {reads : List Read} {view : ReplicaView} (e : SyncError)
        → view.is_reading ≡ true
        → ViewSteps reads view
        → ViewSteps reads (finish_task locale_precedes schema (err e) view).1
    read :
        {reads : List Read} {view : ReplicaView} (next : Read)
        → view.is_reading ≡ true
        → ViewSteps reads view
        → ViewSteps (next ∷ reads) (finish_task locale_precedes schema (ok next) view).1
    phase_set :
        {reads : List Read} {view : ReplicaView} (phase : SyncClientPhase)
        (error : Option SyncError)
        → ViewSteps reads view
        → ViewSteps reads (set_phase locale_precedes schema phase error view).0
    subscribed :
        {reads : List Read} {view : ReplicaView} (listener : ℕ)
        → ViewSteps reads view
        → ViewSteps reads (subscribe locale_precedes schema listener view)
    unsubscribed :
        {reads : List Read} {view : ReplicaView} (listener : ℕ)
        → ViewSteps reads view
        → ViewSteps reads (unsubscribe locale_precedes schema listener view)
    closed :
        {reads : List Read} {view : ReplicaView}
        → ViewSteps reads view
        → ViewSteps reads (close_view locale_precedes schema view).0

  abbrev pub latest : List Read → Read
  latest [] = initial
  latest (next ∷ reads) = next

  abbrev pub IsOfSchema : Read → Type 0
  IsOfSchema next = assert_database_state_schema schema next.optimistic_state ≡ ok tt

  -- The view has the latest read, counts the reads, and its snapshot is made of both.
  pub record IsCoherent (reads : List Read) (view : ReplicaView) : Type 0 where
    pub client_id : view.client_id ≡ (latest reads).client_id
    pub optimistic_state : view.optimistic_state ≡ (latest reads).optimistic_state
    pub status : view.status ≡ (latest reads).status
    pub revision : view.revision ≡ length reads
    pub snapshot :
        view.snapshot
        ≡ make_snapshot locale_precedes schema
            (latest reads).optimistic_state
            (latest reads).status
            view.snapshot.phase
            view.snapshot.error
            (length reads)

  -- what has the same version and the same snapshot
  same-IsCoherent :
      {reads : List Read} (view view' : ReplicaView)
      → view'.client_id ≡ view.client_id
      → view'.optimistic_state ≡ view.optimistic_state
      → view'.status ≡ view.status
      → view'.revision ≡ view.revision
      → view'.snapshot ≡ view.snapshot
      → IsCoherent reads view
      → IsCoherent reads view'
  same-IsCoherent view view' client_id state status revision snapshot c = record {
    client_id = client_id ∙ c.client_id;
    optimistic_state = state ∙ c.optimistic_state;
    status = status ∙ c.status;
    revision = revision ∙ c.revision;
    snapshot = rw snapshot (c.snapshot);
  }

  -- a new snapshot of the same version
  emitted-IsCoherent :
      {reads : List Read} (view view' : ReplicaView)
      → view'.client_id ≡ view.client_id
      → view'.optimistic_state ≡ view.optimistic_state
      → view'.status ≡ view.status
      → view'.revision ≡ view.revision
      → view'.snapshot
        ≡ make_snapshot locale_precedes schema view.optimistic_state view.status
            view'.snapshot.phase view'.snapshot.error view.revision
      → IsCoherent reads view
      → IsCoherent reads view'
  emitted-IsCoherent {reads} view view' client_id state status revision snapshot c = record {
    client_id = client_id ∙ c.client_id;
    optimistic_state = state ∙ c.optimistic_state;
    status = status ∙ c.status;
    revision = revision ∙ c.revision;
    snapshot =
        subst
          (λ (state : ReplicaDatabaseState).
            view'.snapshot
            ≡ make_snapshot locale_precedes schema state (latest reads).status view'.snapshot.phase
                view'.snapshot.error (length reads))
          c.optimistic_state (rw (← c.status, ← c.revision) snapshot);
  }

  start_task-IsCoherent :
      {reads : List Read} (options : Option ReplicaViewRefreshOptions)
      (rest : List (Option ReplicaViewRefreshOptions)) (view : ReplicaView)
      → IsCoherent reads view
      → IsCoherent reads (start_task locale_precedes schema options rest view)
  unfolding start_task
  start_task-IsCoherent none rest view c = same-IsCoherent view _ refl refl refl refl refl c
  start_task-IsCoherent (some options) rest view c =
      same-IsCoherent view _ refl refl refl refl refl c

  finish_task-IsCoherent :
      {reads : List Read} (next : Read) (view : ReplicaView)
      → IsCoherent reads view
      → IsOfSchema next
      → IsCoherent (next ∷ reads) (finish_task locale_precedes schema (ok next) view).1
  unfolding finish_task emit make_snapshot
  finish_task-IsCoherent {reads} next view c fits =
      let counted : view.revision + 1 ≡ suc (length reads) = omega (arith, c.revision) in
      rw (fits, finish_task, counted)
        (record {
          client_id = refl;
          optimistic_state = refl;
          status = refl;
          revision = refl;
          snapshot = refl;
        })

  -- However the calls of a view and its reads of the store come between each other, if all that it
  -- reads is of its schema, then what it shows is one version of the store and its number: the client,
  -- the rows of every table and the counts of its latest read, and how many it has made.
  pub ViewSteps-IsCoherent :
      {reads : List Read} {view : ReplicaView}
      → ViewSteps reads view
      → All IsOfSchema reads
      → IsCoherent reads view
  unfolding create_replica_view refresh start_task finish_task set_phase subscribe unsubscribe
      close_view emit make_snapshot
  ViewSteps-IsCoherent (created h) fits =
      let (_, h₁) =
        (>>-eq-ok (assert_database_state_schema schema initial.optimistic_state) _).0 h in
      subst (IsCoherent []) (ok-injective h₁) (record {
        client_id = refl;
        optimistic_state = refl;
        status = refl;
        revision = refl;
        snapshot = refl;
      })
  ViewSteps-IsCoherent (requested {view = view} options s) fits =
      same-IsCoherent view _ refl refl refl refl refl (ViewSteps-IsCoherent s fits)
  ViewSteps-IsCoherent (started {view = view} options rest waits idle s) fits =
      start_task-IsCoherent options rest view (ViewSteps-IsCoherent s fits)
  ViewSteps-IsCoherent (failed {view = view} e reading s) fits =
      same-IsCoherent view _ refl refl refl refl refl (ViewSteps-IsCoherent s fits)
  ViewSteps-IsCoherent (read {view = view} next reading s) fits =
      finish_task-IsCoherent next view (ViewSteps-IsCoherent s fits.1) fits.0
  ViewSteps-IsCoherent (phase_set {view = view} phase error s) fits =
      emitted-IsCoherent view _ refl refl refl refl refl (ViewSteps-IsCoherent s fits)
  ViewSteps-IsCoherent (subscribed {view = view} listener s) fits =
      same-IsCoherent view _ refl refl refl refl refl (ViewSteps-IsCoherent s fits)
  ViewSteps-IsCoherent (unsubscribed {view = view} listener s) fits =
      same-IsCoherent view _ refl refl refl refl refl (ViewSteps-IsCoherent s fits)
  ViewSteps-IsCoherent (closed {view = view} s) fits =
      emitted-IsCoherent view _ refl refl refl refl refl (ViewSteps-IsCoherent s fits)
