-- ===== src/Cfour/Events.antt =====
-- Change notification and the event log of `BaseCfour`: `_notify`, `_logEvent`, `setEventLogMax`,
-- and `clearEventHistory` and `getRecentEvents` over the in-memory log.
pub mod Log
pub mod Query
use noware.Prelude.{
  ℕ, suc, ◌-◌, String, Bool, Option, none, some, List, [], ◌∷◌, ◌++◌, ltb, if◌then◌else◌, length,
  drop,
}
use noware.Cfour.{Event, State, World}

-- `splice(0, length - max)` where the log is longer than its cap.
unfoldable pub trim : ℕ → List Event → List Event
trim max log = if ltb max (length log) then drop (length log - max) log else log

abbrev pub stamp : State → Event → Event
stamp s e = record e { timestamp = some (s.world.clock s.world.reads) }

unfoldable pub log_event : Event → State → State
unfolding trim
log_event e s = record s {
  event_log = trim s.event_log_max (s.event_log ++ stamp s e ∷ []);
  world = record s.world { reads = suc s.world.reads };
}

-- A logged event goes to every listener.
unfoldable pub deliver : Event → State → State
unfolding log_event
deliver e s = let logged = log_event e s in record logged { delivered = s.delivered ++ e ∷ [] }

unfoldable pub notify : Event → State → State
unfolding deliver
notify e s =
    if ltb 0 s.batch_depth then record s { batch_queue = s.batch_queue ++ e ∷ [] } else deliver e s

-- The loop that flushes the queue.
unfoldable pub deliver_all : List Event → State → State
unfolding deliver
deliver_all [] s = s
deliver_all (e ∷ es) s = deliver_all es (deliver e s)

unfoldable pub set_event_log_max : ℕ → State → State
unfolding trim
set_event_log_max max s = record s { event_log_max = max; event_log = trim max s.event_log }

unfoldable pub clear_event_history : State → State
clear_event_history s = record s { event_log = [] }

-- `slice(-n)`; `slice(-0)` is the whole log.
unfoldable pub recent_events : ℕ → State → List Event
recent_events ℕ.zero s = s.event_log
recent_events (suc n) s = drop (length s.event_log - suc n) s.event_log
