-- ===== src/Cfour/Events/Query.antt =====
-- `queryEventHistory` of `BaseCfour` over the in-memory log: one filter after another, then the page
-- that `offset` and `limit` cut out. An empty text and a zero count as absent, as they do in the
-- program; the numbers are natural.
mod Tests
use noware.Prelude.{
  ℕ, String, Bool, true, false, not, Option, none, some, List, drop, take, filter, leb, nat_eq,
  get_or, if◌then◌else◌, ◌==◌,
}
use noware.Model.Compare.{kind_eq}
use noware.Cfour.{
  State, Event, Op, EventKind, of_element, of_relationship, of_view, add, update, remove, reset,
  import, claim, release, branch, merge, propose_relationship, accept_relationship,
  reject_relationship,
}

-- CfourEventQuery
pub record EventQuery : Type 0 where
  pub workspace_name : Option String
  pub op : Option Op
  pub element_id : Option String
  pub element_kind : Option EventKind
  pub since : Option ℕ
  pub until : Option ℕ
  pub limit : Option ℕ
  pub offset : Option ℕ

-- `if (text)` and `if (number)`.
abbrev pub set_text : Option String → Option String
set_text none = none
set_text (some t) = if t == "" then none else some t

abbrev pub set_number : Option ℕ → Option ℕ
set_number none = none
set_number (some n) = if nat_eq n 0 then none else some n

abbrev op_index : Op → ℕ
op_index add = 0
op_index update = 1
op_index remove = 2
op_index reset = 3
op_index import = 4
op_index claim = 5
op_index release = 6
op_index branch = 7
op_index merge = 8
op_index propose_relationship = 9
op_index accept_relationship = 10
op_index reject_relationship = 11

abbrev is_text : String → Option String → Bool
is_text v none = false
is_text v (some t) = t == v

abbrev same_kind : EventKind → EventKind → Bool
same_kind (of_element a) (of_element b) = kind_eq a b
same_kind of_relationship of_relationship = true
same_kind of_view of_view = true
same_kind _ _ = false

abbrev is_kind : EventKind → Option EventKind → Bool
is_kind v none = false
is_kind v (some k) = same_kind k v

abbrev pub by_name : String → Event → Bool
by_name v e = e.workspace_name == v

abbrev pub by_op : Op → Event → Bool
by_op v e = nat_eq (op_index e.op) (op_index v)

abbrev pub by_element : String → Event → Bool
by_element v e = is_text v e.element_id

abbrev pub by_kind : EventKind → Event → Bool
by_kind v e = is_kind v e.element_kind

abbrev pub by_since : ℕ → Event → Bool
by_since v e = leb v (get_or e.timestamp 0)

abbrev pub by_until : ℕ → Event → Bool
by_until v e = leb (get_or e.timestamp 0) v

-- `if (v) results = results.filter(…)`
abbrev pub narrow : {A : Type 0} → Option A → (A → Event → Bool) → List Event → List Event
narrow none test l = l
narrow (some v) test l = filter (test v) l

abbrev pub skip : Option ℕ → List Event → List Event
skip none l = l
skip (some n) l = drop n l

abbrev pub cap : Option ℕ → List Event → List Event
cap none l = l
cap (some n) l = take n l

unfoldable pub query_event_history : EventQuery → State → List Event
query_event_history q s =
    let named = narrow (set_text q.workspace_name) by_name s.event_log in
    let done = narrow q.op by_op named in
    let at = narrow (set_text q.element_id) by_element done in
    let of_kind = narrow q.element_kind by_kind at in
    let later = narrow (set_number q.since) by_since of_kind in
    let earlier = narrow (set_number q.until) by_until later in
    cap (set_number q.limit) (skip (set_number q.offset) earlier)
