-- ===== src/WorkspaceDo/Log.antt =====
-- The table `events` of packages/workspace-do/src/index.ts: `appendEvent`, `pruneEvents`,
-- `setEventLogMax` and `queryEventsSync`.
use noware.Prelude.{
  ℕ, ◌-◌, Bool, true, ◌&&◌, Option, none, some, List, [], ◌∷◌, ◌++◌, map, length, drop, nat_eq,
  if◌then◌else◌, filter, take, leb, get_or, ◌≡◌, refl, sym, ◌∙◌, ◌≤◌, arith, length-drop, suc,
  Option-cases, inl, inr,
}
use noware.Exec.{ok, pure, modify, ◌>>=◌}
use noware.Cfour.{Event}
use noware.WorkspaceDo.{Store, M, EventRow, date_now}
use noware.Cfour.Events.Query.{EventQuery, by_name, by_op, by_element, by_kind}

-- `pruneEvents` keeps the newest rows.
unfoldable pub prune_events : Store → Store
prune_events s = elim s.event_log_max [
  | none ↦ s
  | some n ↦ record s { events = drop (length s.events - n) s.events }
]

abbrev stamped : Event → ℕ → EventRow
stamped e now = record { payload = e; timestamp = now }

abbrev log_row : EventRow → Store → Store
log_row row s = record s { events = s.events ++ row ∷ [] }

-- `event.timestamp ?? Date.now()`
abbrev pub event_time : Option ℕ → M ℕ
event_time none = date_now
event_time (some time) = pure time

unfoldable pub append_event : Event → M Unit
unfolding date_now prune_events ◌>>=◌
append_event e = do
  time ← event_time e.timestamp
  modify λ s. prune_events (log_row (stamped e time) s)

-- `setEventLogMax`
unfoldable pub set_event_log_max : ℕ → Store → Store
unfolding prune_events
set_event_log_max rows s =
    prune_events (record s { event_log_max = if nat_eq rows 0 then none else some rows })

-- A clause of the WHERE is left out where the filter's field is undefined.
abbrev clause : {A : Type 0} → Option A → (A → EventRow → Bool) → EventRow → Bool
clause none test row = true
clause (some v) test row = test v row

abbrev selected : EventQuery → EventRow → Bool
selected q r =
    clause q.workspace_name (λ v r. by_name v r.payload) r
    && clause q.op (λ v r. by_op v r.payload) r
    && clause q.element_id (λ v r. by_element v r.payload) r
    && clause q.element_kind (λ v r. by_kind v r.payload) r
    && clause q.since (λ v r. leb v r.timestamp) r
    && clause q.until (λ v r. leb r.timestamp v) r

-- The numbers of the filter are natural.
unfoldable pub query_events_sync : EventQuery → Store → List Event
query_events_sync q s =
    map (λ r. r.payload)
      (take (get_or q.limit 100) (drop (get_or q.offset 0) (filter (selected q) s.events)))

abbrev IsBounded : Store → Type 0
IsBounded s = (n : ℕ) → s.event_log_max ≡ some n → length s.events ≤ n

prune_events-event_log_max : (s : Store) → (prune_events s).event_log_max ≡ s.event_log_max
unfolding prune_events
prune_events-event_log_max s = elim (Option-cases s.event_log_max) [
  | inl e ↦ rw (prune_events, e) e
  | inr (n, e) ↦ rw (prune_events, e) e
]

-- A pruned table has at most as many rows as the cap allows.
prune_events-IsBounded : (s : Store) → IsBounded (prune_events s)
unfolding prune_events
prune_events-IsBounded s n h =
    let capped = sym (prune_events-event_log_max s) ∙ h in
    rw (prune_events, capped) (omega (arith, length-drop (length s.events - n) s.events))

-- After an event is appended, the table is within the cap, whether it was before or not.
append_event-IsBounded :
    (e : Event) (s : Store) → (t : Store) × (append_event e s ≡ (ok tt, t)) × IsBounded t
unfolding append_event date_now ◌>>=◌
append_event-IsBounded e s = at e.timestamp
  where
    row_at : ℕ → Store → Store
    row_at time s = prune_events (log_row (stamped e time) s)

    at :
        (o : Option ℕ)
        → (t : Store) × ((event_time o >>= λ time. modify (row_at time)) s ≡ (ok tt, t))
          × IsBounded t
    at none = (
      _,
      refl,
      prune_events-IsBounded
          (log_row (stamped e (s.clock s.reads)) (record s { reads = suc s.reads })),
    )
    at (some time) = (_, refl, prune_events-IsBounded (log_row (stamped e time) s))
