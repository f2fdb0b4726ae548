-- ===== src/Replica/Follow.antt =====
-- The entries of a canonical log in the second loop of `mergeSyncResponse` in src/replica.ts: the
-- replica's confirmed prefix follows the log.
use sync_engine_v.Base.{
  ℕ, zero, suc, ◌+◌, ◌-◌, ◌≤◌, ◌<◌, max, ◌≡◌, refl, sym, ap, subst, ◌∙◌, ◌≢◌, inl, inr, Bool, true,
  List, [], ◌∷◌, ◌++◌, none, some, some-injective, arith, get_elem?, get_elem?-append_last,
  get_elem?-lt, ◌==◌, Option-cases, str_eq_refl, take, length, length-append, leb, Bool-cases,
}
use sync_engine_v.Errors.{Result, ok}
use sync_engine_v.Protocol.{CommittedOperation}
use sync_engine_v.Replay.{replay, replay-next}
use sync_engine_v.Replica.{
  ReplicaInterpreter, Progress, merge_retained, merge_next, merge_entry, merge_entries,
  assert_same_committed_position, committed_metadata_difference,
}
use sync_engine_v.Replica.Canonical.{IsUnique, IsSound}
use sync_engine_v.Replica.Confirm.{resolve-confirmed, resolve-next}

-- The log of an authority: it counts from one, no operation stands in it twice, and it replays.
pub record IsCanonical {State Operation : Type 0} (apply : State → Operation → Result State)
    (initial final : State) (log : List (CommittedOperation Operation)) : Type 0 where
  pub counted :
      (i : ℕ) (c : CommittedOperation Operation) → get_elem? log i ≡ some c → c.sequence ≡ i + 1
  pub unique : IsUnique log
  pub replays : replay apply initial log ≡ ok final

-- These entries stand in the log, from an index on.
abbrev pub FromLog :
    {Operation : Type 0}
    → List (CommittedOperation Operation)
    → ℕ
    → List (CommittedOperation Operation)
    → Type 0
FromLog log i [] = Unit
FromLog log i (c ∷ cs) = (get_elem? log i ≡ some c) × FromLog log (suc i) cs

-- A confirmed prefix of the log: of its `k` entries those behind `base` are retained, and the state
-- is their replay.
pub record Follows {State Operation : Type 0} (apply : State → Operation → Result State)
    (initial : State) (log : List (CommittedOperation Operation)) (base k : ℕ) (state : State)
    (retained : List (CommittedOperation Operation)) : Type 0 where
  pub within : k ≤ length log
  pub covers : base + length retained ≡ k
  pub agrees :
      (i : ℕ) (c : CommittedOperation Operation)
      → get_elem? retained i ≡ some c
      → get_elem? log (base + i) ≡ some c
  pub replays : replay apply initial (take k log) ≡ ok state

module _ {Operation : Type 0} where
  get_elem?-ne-none :
      (cs : List (CommittedOperation Operation)) (i : ℕ) → i < length cs → get_elem? cs i ≢ none
  get_elem?-ne-none [] i below h = absurd (omega arith)
  get_elem?-ne-none (c ∷ cs) zero below h = absurd (ground arith)
  get_elem?-ne-none (c ∷ cs) (suc i) below h = get_elem?-ne-none cs i (omega arith) h

  assert_same_committed_position_self :
      (are_equal : Operation → Operation → Bool) (c : CommittedOperation Operation)
      → are_equal c.operation c.operation ≡ true
      → assert_same_committed_position are_equal c c ≡ ok tt
  unfolding assert_same_committed_position committed_metadata_difference
  assert_same_committed_position_self are_equal c h = ground (
    arith,
    str_eq_refl c.operation_id,
    str_eq_refl c.origin.client_id,
    str_eq_refl c.origin.intent_hash,
  )

module _ {State Operation : Type 0} (apply : State → Operation → Result State) (initial : State)
    (log : List (CommittedOperation Operation)) (base : ℕ) where
  -- the next entry is applied and appended
  Follows-suc :
      (k : ℕ) (state next : State) (retained : List (CommittedOperation Operation))
      (c : CommittedOperation Operation)
      → Follows apply initial log base k state retained
      → get_elem? log k ≡ some c
      → replay apply initial (take (suc k) log) ≡ ok next
      → Follows apply initial log base (suc k) next (retained ++ c ∷ [])
  Follows-suc k state next retained c f there whole = record {
    within = get_elem?-lt log k there;
    covers = omega (arith, length-append retained (c ∷ []), f.covers);
    agrees = λ i d h. elim (get_elem?-append_last retained c i h) [
      | inl before ↦ f.agrees i d before
      | inr (last, same) ↦
          let place : k ≡ base + i = omega (arith, f.covers, last) in
          sym (ap (get_elem? log) place) ∙ there ∙ ap some same
    ];
    replays = whole;
  }

module _ {State Intent Operation Rejection : Type 0}
    (interpreter : ReplicaInterpreter State Intent Operation)
    (equal_refl : (o : Operation) → interpreter.are_committed_operations_equal o o ≡ true)
    (initial final : State) (log : List (CommittedOperation Operation))
    (canonical : IsCanonical interpreter.apply_committed initial final log) (base : ℕ) where
  -- The local variables of a merge agree with the log.
  pub record IsOnTrack (k : ℕ) (progress : Progress State Intent Operation Rejection) : Type 0 where
    pub at : progress.confirmed_sequence ≡ k
    pub follows :
        Follows interpreter.apply_committed initial log base k progress.confirmed_state
          progress.confirmed_log
    pub sound : IsSound log k progress.learned.outbox

  -- an entry that is retained is checked, and changes nothing
  merge_retained-on_track :
      (k j : ℕ) (progress : Progress State Intent Operation Rejection)
      (c : CommittedOperation Operation)
      → IsOnTrack k progress
      → get_elem? log j ≡ some c
      → base ≤ j
      → j < k
      → merge_retained interpreter base progress c ≡ ok progress
  unfolding merge_retained
  merge_retained-on_track k j progress c t there above below =
      let f = t.follows in
      let number : c.sequence - base - 1 ≡ j - base = omega (arith, canonical.counted j c there) in
      elim (Option-cases (get_elem? progress.confirmed_log (j - base))) [
        | inl absent ↦
            absurd
              (get_elem?-ne-none progress.confirmed_log (j - base) (omega (arith, f.covers)) absent)
        | inr (existing, retained) ↦
            let place : base + (j - base) ≡ j = omega arith in
            let same : existing ≡ c =
              some-injective
                (sym (f.agrees (j - base) existing retained) ∙ ap (get_elem? log) place ∙ there) in
            rw
              (
                number,
                retained,
                merge_retained,
                same,
                assert_same_committed_position_self interpreter.are_committed_operations_equal c
                    (equal_refl c.operation),
                resolve-confirmed log canonical.unique interpreter.are_committed_operations_equal
                    equal_refl k j progress.learned c t.sound there below,
              )
              refl
      ]

  merge_next-IsOnTrack :
      (k : ℕ) (progress : Progress State Intent Operation Rejection)
      (c : CommittedOperation Operation)
      → IsOnTrack k progress
      → get_elem? log k ≡ some c
      → (last : Progress State Intent Operation Rejection) × (merge_next interpreter base progress c
          ≡ ok last)
        × IsOnTrack (suc k) last
  unfolding merge_next
  merge_next-IsOnTrack k progress c t there =
      let (next, applied, whole) =
        replay-next interpreter.apply_committed initial final progress.confirmed_state log k c
          canonical.replays there t.follows.replays in
      let (learned, returns, sound) =
        resolve-next log canonical.unique interpreter.are_committed_operations_equal equal_refl k
          progress.learned c t.sound there in
      let number = canonical.counted k c there in
      let expected : (c.sequence == progress.confirmed_sequence + 1) ≡ true =
        ground (arith, t.at, number) in
      (
        record {
          confirmed_sequence = c.sequence;
          confirmed_state = next;
          confirmed_log = progress.confirmed_log ++ c ∷ [];
          learned = learned;
        },
        rw (expected, applied, returns) refl,
        record {
          at = omega (arith, number);
          follows =
              Follows-suc interpreter.apply_committed initial log base k progress.confirmed_state
                next progress.confirmed_log c t.follows there whole;
          sound = sound;
        },
      )

  merge_entry-IsOnTrack :
      (k j : ℕ) (progress : Progress State Intent Operation Rejection)
      (c : CommittedOperation Operation)
      → IsOnTrack k progress
      → get_elem? log j ≡ some c
      → j ≤ k
      → (last : Progress State Intent Operation Rejection) × (merge_entry interpreter base progress
            c
          ≡ ok last)
        × IsOnTrack (max k (suc j)) last
  unfolding merge_entry
  merge_entry-IsOnTrack k j progress c t there reach =
      let number = canonical.counted j c there in
      elim (Bool-cases (leb c.sequence base)) [
        | inl compacted ↦ (
          progress,
          rw (compacted, merge_entry) refl,
          subst (λ n. IsOnTrack n progress) (ground (arith, t.follows.covers, number)) t,
        )
        | inr behind ↦ elim (Bool-cases (leb c.sequence progress.confirmed_sequence)) [
          | inl confirmed ↦ (
            progress,
            rw (behind, confirmed, merge_entry)
                (merge_retained-on_track k j progress c t there (ground (arith, number))
                  (ground (arith, number, t.at))),
            subst (λ n. IsOnTrack n progress) (ground (arith, number, t.at)) t,
          )
          | inr new ↦
              let next : j ≡ k = ground (arith, number, t.at) in
              let (last, returns, t') =
                merge_next-IsOnTrack k progress c t (sym (ap (get_elem? log) next) ∙ there) in
              (
                last,
                rw (behind, new, merge_entry) returns,
                subst (λ n. IsOnTrack n last) (omega arith) t',
              )
        ]
      ]

  -- A piece of the log that starts within the confirmed prefix is taken in without an error, and
  -- moves the confirmed prefix to its end, unless it ends earlier.
  pub merge_entries-IsOnTrack :
      (k j : ℕ) (progress : Progress State Intent Operation Rejection)
      (cs : List (CommittedOperation Operation))
      → IsOnTrack k progress
      → FromLog log j cs
      → j ≤ k
      → (last : Progress State Intent Operation Rejection) × (merge_entries interpreter base
            progress cs
          ≡ ok last)
        × IsOnTrack (max k (j + length cs)) last
  unfolding merge_entries
  merge_entries-IsOnTrack k j progress [] t from reach =
      (progress, refl, subst (λ n. IsOnTrack n progress) (omega arith) t)
  merge_entries-IsOnTrack k j progress (c ∷ cs) t from reach =
      let (next, returns, t') = merge_entry-IsOnTrack k j progress c t from.0 reach in
      let (last, returns', t'') =
        merge_entries-IsOnTrack (max k (suc j)) (suc j) next cs t' from.1 (omega arith) in
      (last, rw returns returns', subst (λ n. IsOnTrack n last) (omega arith) t'')
