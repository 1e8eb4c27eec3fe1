-- ===== src/Cfour/Batch/Rollback.antt =====
-- What a failed batch leaves behind.
use noware.Prelude.{
  suc, String, true, ◌≡◌, refl, sym, ap, Option, none, some, List, [], ◌∷◌, ◌++◌, arith, eq_iff,
  Option-cases, inl, inr, get_or, length, map, take_length, Map, get, set, delete, has, get-set,
  get-delete, Distinct, set-Distinct,
}
use mathlib.Core.Path.{subst}
use mathlib.Core.List.{append_assoc, append-nil}
use noware.Exec.{Result, ok, throws}
use noware.Exec.Keeps.{Keeps}
use noware.Model.{Workspace}
use noware.Cfour.{State, Event, bare, Error, M}
use noware.Cfour.Events.{notify, deliver_all}
use noware.Cfour.Workspaces.{get_workspace, put_workspace, reset_workspace}
use noware.Cfour.Batch.{
  Level, top, settle, capture, restore_level, roll_back, close_batch, open_batch, batch,
}

-- What the level would restore: its snapshot, or else the workspace as it stands.
abbrev pub baseline : String → State → Option Workspace
baseline n s = get_or (get n (top s.batch_snapshots)) (get n s.workspaces)

-- The state `s` is inside a batch that was opened in the state `s0`.
pub record Tracks (s0 s : State) : Type 0 where
  pub level : s.batch_snapshots ≡ top s.batch_snapshots ∷ s0.batch_snapshots
  pub base : (n : String) → baseline n s ≡ get n s0.workspaces
  pub distinct : Distinct (top s.batch_snapshots)
  pub deep : s.batch_depth ≡ suc s0.batch_depth
  pub extra : List Event
  pub queued : s.batch_queue ≡ s0.batch_queue ++ extra
  pub logged : s.event_log ≡ s0.event_log
  pub told : s.delivered ≡ s0.delivered

pub open_batch-Tracks : (s : State) → Tracks s (open_batch s)
unfolding open_batch get
open_batch-Tracks s = record {
  level = refl;
  base = λ n. refl;
  distinct = tt;
  deep = refl;
  extra = [];
  queued = sym (append-nil s.batch_queue);
  logged = refl;
  told = refl;
}

-- A change that leaves the fields of the batch alone.
pub record SameBatch (s t : State) : Type 0 where
  pub workspaces : t.workspaces ≡ s.workspaces
  pub depth : t.batch_depth ≡ s.batch_depth
  pub queue : t.batch_queue ≡ s.batch_queue
  pub snapshots : t.batch_snapshots ≡ s.batch_snapshots
  pub log : t.event_log ≡ s.event_log
  pub told : t.delivered ≡ s.delivered

pub Tracks-same : {s0 s t : State} → SameBatch s t → Tracks s0 s → Tracks s0 t
Tracks-same {s0} {s} {t} e h = record {
  level = ground (arith, h.level);
  base = λ n. ground (arith, h.base n);
  distinct = ground (arith, h.distinct);
  deep = ground arith;
  extra = h.extra;
  queued = ground arith;
  logged = ground arith;
  told = ground arith;
}

pub notify-Tracks : (e : Event) {s0 s : State} → Tracks s0 s → Tracks s0 (notify e s)
unfolding notify
notify-Tracks e {s0} {s} h = record {
  level = ground (arith, h.level);
  base = λ n. ground (arith, h.base n);
  distinct = ground (arith, h.distinct);
  deep = ground arith;
  extra = h.extra ++ e ∷ [];
  queued = ground (arith, append_assoc s0.batch_queue h.extra (e ∷ []));
  logged = ground arith;
  told = ground arith;
}

capture-Tracks :
    (name : String) (current : Option Workspace) {s0 s : State}
    → current ≡ get name s.workspaces
    → Tracks s0 s
    → Tracks s0 (capture name current s)
unfolding capture has
capture-Tracks name current {s0} {s} e h = record {
  level = ground (arith, h.level);
  base = λ n.
      ground
        (arith, h.level, h.base n, get-set name n current (top s.batch_snapshots), eq_iff name n);
  distinct =
      ground
        (arith, h.level, h.distinct, set-Distinct name current (top s.batch_snapshots) h.distinct);
  deep = ground arith;
  extra = h.extra;
  queued = ground arith;
  logged = ground arith;
  told = ground arith;
}

-- Inside the batch, and the level has a snapshot of the workspace.
pub record Inside (s0 : State) (name : String) (s : State) : Type 0 where
  pub tracks : Tracks s0 s
  pub open tracks use *
  pub captured : has name (top s.batch_snapshots) ≡ true

pub put_workspace-Inside :
    (name : String) (ws : Workspace) {s0 s : State}
    → Inside s0 name s
    → Inside s0 name (put_workspace name ws s)
unfolding put_workspace has
put_workspace-Inside name ws {s0} {s} h = record {
  tracks = record {
    level = h.level;
    base = λ n. ground (arith, h.base n, h.captured, get-set name n ws s.workspaces, eq_iff name n);
    distinct = h.distinct;
    deep = h.deep;
    extra = h.extra;
    queued = h.queued;
    logged = h.logged;
    told = h.told;
  };
  captured = h.captured;
}

pub notify-Inside :
    (e : Event) {s0 s : State} {name : String} → Inside s0 name s → Inside s0 name (notify e s)
unfolding notify
notify-Inside e {s0} {s} h = record {
  tracks = notify-Tracks e h.tracks;
  captured = ground (arith, h.deep, h.captured);
}

pub Inside-same :
    {s0 s t : State} {name : String} → SameBatch s t → Inside s0 name s → Inside s0 name t
Inside-same e h = record { tracks = Tracks-same e h.tracks; captured = ground (arith, h.captured) }

capture-Inside :
    (name : String) (current : Option Workspace) {s0 s : State}
    → current ≡ get name s.workspaces
    → Tracks s0 s
    → Inside s0 name (capture name current s)
unfolding capture has
capture-Inside name current {s0} {s} e h = record {
  tracks = capture-Tracks name current e h;
  captured =
      ground (
        arith,
        h.level,
        h.deep,
        get-set name name current (top s.batch_snapshots),
        eq_iff name name,
      );
}

pub reset_workspace-Inside :
    (name : String) (title description : Option String) {s0 s : State}
    → Tracks s0 s
    → Inside s0 name (reset_workspace name title description s)
unfolding reset_workspace
reset_workspace-Inside name title description h = notify-Inside _ (
    Inside-same
      (record {
        workspaces = refl;
        depth = refl;
        queue = refl;
        snapshots = refl;
        log = refl;
        told = refl;
      })
      (put_workspace-Inside name _ (capture-Inside name _ refl h)))

-- `getWorkspace` takes the snapshot before anything is changed.
pub get_workspace-Inside :
    (name : String) {s0 s : State} → Tracks s0 s → Inside s0 name (get_workspace name s).1
unfolding get_workspace
get_workspace-Inside name {s0} {s} h = elim (Option-cases (get name s.workspaces)) [
  | inl e ↦ rw (e, get_workspace) (reset_workspace-Inside name none none h)
  | inr (ws, e) ↦ rw (e, get_workspace) (capture-Inside name (some ws) (sym e) h)
]

restore_level-get :
    (n : String) (level : Level) (m : Map Workspace)
    → Distinct level
    → get n (restore_level level m) ≡ get_or (get n level) (get n m)
unfolding restore_level get has
restore_level-get n [] m h = refl
restore_level-get n ((name, none) ∷ level) m h =
    ground (
      arith,
      restore_level-get n level (delete name m) h.1,
      get-delete name n m,
      h.0,
      eq_iff name n,
    )
restore_level-get n ((name, some ws) ∷ level) m h =
    ground (
      arith,
      restore_level-get n level (set name ws m) h.1,
      get-set name n ws m,
      h.0,
      eq_iff name n,
    )

-- What no object of a workspace shares with the event: the other fields may hold live objects, which
-- later edits change in place.
abbrev pub outline : Event → Event
outline e = record (bare e.op e.workspace_name) {
  element_id = e.element_id;
  element_kind = e.element_kind;
  path = e.path;
  changes = e.changes;
  timestamp = e.timestamp;
}

-- What stays as it was: the workspace, the depth of the batches, and which events were queued, logged
-- and told.
pub record RolledBack (name : String) (s t : State) : Type 0 where
  pub workspace : get name t.workspaces ≡ get name s.workspaces
  pub depth : t.batch_depth ≡ s.batch_depth
  pub queue : map outline t.batch_queue ≡ map outline s.batch_queue
  pub log : map outline t.event_log ≡ map outline s.event_log
  pub told : map outline t.delivered ≡ map outline s.delivered

-- Outside batches nothing is queued.
abbrev pub IsSettled : State → Type 0
IsSettled s = s.batch_depth ≡ 0 → s.batch_queue ≡ []

module _ (name : String) where
  close-RolledBack :
      (s t : State)
      → IsSettled s
      → Tracks s t
      → RolledBack name s (close_batch (roll_back (length s.batch_queue) t))
  unfolding close_batch roll_back deliver_all
  close-RolledBack s t settled h = record {
    workspace = ground (
      arith,
      h.base name,
      h.deep,
      settled,
      restore_level-get name (top t.batch_snapshots) t.workspaces h.distinct,
      take_length s.batch_queue h.extra,
    );
    depth = ground (arith, h.deep, settled, take_length s.batch_queue h.extra);
    queue = ap (map outline) (ground (arith, h.deep, settled, take_length s.batch_queue h.extra));
    log = ap (map outline) (ground (arith, h.deep, settled, take_length s.batch_queue h.extra));
    told = ap (map outline) (ground (arith, h.deep, settled, take_length s.batch_queue h.extra));
  }

  -- A batch whose callback throws leaves the workspace as it was, and nothing more is queued, logged or
  -- told, if the callback changes workspaces only after their snapshots were taken.
  pub batch-RolledBack :
      {A : Type 0} (body : M A) (s t : State) (e : Error)
      → IsSettled s
      → Keeps (Tracks s) body
      → batch body s ≡ (throws e, t)
      → RolledBack name s t
  unfolding batch
  batch-RolledBack body s t e settled keeps h = settle_throws (body (open_batch s)) refl h
    where
      settle_throws :
          (r : Result Error _ × State)
          → body (open_batch s) ≡ r
          → settle (length s.batch_queue) r ≡ (throws e, t)
          → RolledBack name s t
      settle_throws (ok a, u) p q = cc
      settle_throws (throws e', u) p q = subst (RolledBack name s) (ap (λ x. x.1) q) (
          close-RolledBack s u settled
            (subst (λ x. Tracks s x.1) p (keeps.at (open_batch s) (open_batch-Tracks s))))
