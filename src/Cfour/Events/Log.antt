-- ===== src/Cfour/Events/Log.antt =====
-- The event log is a window on the history, and the listeners see each event once and in order.
use noware.Prelude.{
  ℕ, suc, ◌-◌, ◌≤◌, ◌≡◌, sym, ap, ◌∙◌, some, List, [], ◌∷◌, ◌++◌, arith, ltb, Bool-cases, inl, inr,
  length, drop, length-append, length-drop, drop-append, drop-drop,
}
use mathlib.Core.List.{append_assoc, append-nil}
use noware.Cfour.{State, Event, World}
use noware.Cfour.Events.{trim, stamp, log_event, deliver, deliver_all, set_event_log_max}

-- The last `max` events of a history.
abbrev pub window : ℕ → List Event → List Event
window max history = drop (length history - max) history

trim-window : (max : ℕ) (log : List Event) → trim max log ≡ window max log
unfolding trim
trim-window max log = elim (Bool-cases (ltb max (length log))) [
  | inl long ↦ rw long
  | inr short ↦ let none_cut : length log - max ≡ 0 = ground arith in rw (short, none_cut)
]

-- One more event on a window is the window of one more event.
window-append :
    (max : ℕ) (history : List Event) (e : Event)
    → window max (window max history ++ e ∷ []) ≡ window max (history ++ e ∷ [])
window-append max history e =
    let cut = length history - max in
    let joined : window max history ++ e ∷ [] ≡ drop cut (history ++ e ∷ []) =
      sym (drop-append cut history (e ∷ []) (omega arith)) in
    rw joined (
      drop-drop (length (drop cut (history ++ e ∷ [])) - max) cut (history ++ e ∷ [])
      ∙ ap (λ n. drop n (history ++ e ∷ []))
          (omega (arith, length-append history (e ∷ []), length-drop cut (history ++ e ∷ []))))

-- The events of a list as the log stamps them, one reading of the clock each.
abbrev pub stamped : World → List Event → List Event
stamped w [] = []
stamped w (e ∷ es) =
    record e { timestamp = some (w.clock w.reads) } ∷ stamped (record w { reads = suc w.reads }) es

deliver-window :
    (e : Event) (history : List Event) (s : State)
    → s.event_log ≡ window s.event_log_max history
    → (deliver e s).event_log ≡ window s.event_log_max (history ++ stamp s e ∷ [])
unfolding deliver log_event
deliver-window e history s h =
    rw (trim-window s.event_log_max (s.event_log ++ stamp s e ∷ []), h)
      (window-append s.event_log_max history (stamp s e))

-- Delivering events keeps the log the last `event_log_max` events of the stamped history, and calls
-- the listeners with each of them, in order and after those before.
pub deliver_all_lem :
    (es history : List Event) (s : State)
    → s.event_log ≡ window s.event_log_max history
    → ((deliver_all es s).event_log ≡ window s.event_log_max (history ++ stamped s.world es))
      × ((deliver_all es s).delivered ≡ s.delivered ++ es)
unfolding deliver_all
deliver_all_lem [] history s h =
    (h ∙ ap (window s.event_log_max) (sym (append-nil history)), sym (append-nil s.delivered))
deliver_all_lem (e ∷ es) history s h =
    let after = deliver e s in
    let (logged, told) =
      deliver_all_lem es (history ++ stamp s e ∷ []) after (deliver-window e history s h) in
    (
      logged ∙ ap (window s.event_log_max) (append_assoc history _ _),
      told ∙ append_assoc s.delivered (e ∷ []) es,
    )

-- Lowering or raising the cap leaves the last events that the log had.
pub set_event_log_max_lem :
    (max : ℕ) (s : State) → (set_event_log_max max s).event_log ≡ window max s.event_log
unfolding set_event_log_max
set_event_log_max_lem max s = trim-window max s.event_log

length-window-le : (max : ℕ) (history : List Event) → length (window max history) ≤ max
length-window-le max history = omega (arith, length-drop (length history - max) history)

-- The log is never longer than its cap, whatever is delivered, if it was a window before.
pub length-event_log-le :
    (es history : List Event) (s : State)
    → s.event_log ≡ window s.event_log_max history
    → length (deliver_all es s).event_log ≤ s.event_log_max
length-event_log-le es history s h =
    let (logged, _) = deliver_all_lem es history s h in
    omega
      (arith, ap length logged, length-window-le s.event_log_max (history ++ stamped s.world es))
