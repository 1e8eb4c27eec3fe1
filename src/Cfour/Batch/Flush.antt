-- ===== src/Cfour/Batch/Flush.antt =====
-- When the listeners hear of a batch that succeeds.
use noware.Prelude.{◌-◌, false, ◌≡◌, refl, sym, ap, ◌∙◌, List, [], ◌∷◌, ◌++◌, arith, ltb, length}
use mathlib.Core.Path.{subst}
use mathlib.Core.List.{append_assoc, append-nil}
use noware.Exec.{Result, ok, throws}
use noware.Exec.Keeps.{Keeps}
use noware.Cfour.{State, Event, Error, M}
use noware.Cfour.Events.{deliver, log_event, deliver_all}
use noware.Cfour.Batch.{open_batch, close_batch, settle, batch, pop}
use noware.Cfour.Batch.Rollback.{Tracks, open_batch-Tracks}

-- What the listeners and the batch see of a flush.
record Flushed (es : List Event) (s t : State) : Type 0 where
  told : t.delivered ≡ s.delivered ++ es
  depth : t.batch_depth ≡ s.batch_depth
  queue : t.batch_queue ≡ s.batch_queue
  workspaces : t.workspaces ≡ s.workspaces

flush : (es : List Event) (s : State) → Flushed es s (deliver_all es s)
unfolding deliver_all deliver log_event
flush [] s = record {
  told = sym (append-nil s.delivered);
  depth = refl;
  queue = refl;
  workspaces = refl;
}
flush (e ∷ es) s =
    let rest = flush es (deliver e s) in
    record {
      told = rest.told ∙ append_assoc s.delivered (e ∷ []) es;
      depth = rest.depth;
      queue = rest.queue;
      workspaces = rest.workspaces;
    }

-- What a batch that succeeds outside other batches leaves: `inner` is the state at its end.
pub record Delivered (s inner t : State) : Type 0 where
  pub silent : inner.delivered ≡ s.delivered
  pub told : t.delivered ≡ s.delivered ++ inner.batch_queue
  pub settled : t.batch_queue ≡ []
  pub depth : t.batch_depth ≡ 0
  pub workspaces : t.workspaces ≡ inner.workspaces

close-Delivered : (s u : State) → s.batch_depth ≡ 0 → Tracks s u → Delivered s u (close_batch u)
unfolding close_batch
close-Delivered s u outside h =
    let zero_deep : u.batch_depth - 1 ≡ 0 = ground (arith, h.deep) in
    let last : ltb 0 (u.batch_depth - 1) ≡ false = ground (arith, h.deep) in
    let left : State = record u {
      batch_depth = u.batch_depth - 1;
      batch_snapshots = pop u.batch_snapshots;
      batch_queue = [];
    } in
    let flushed = flush u.batch_queue left in
    rw last (record {
      silent = h.told;
      told = flushed.told ∙ ap (λ l. l ++ u.batch_queue) h.told;
      settled = flushed.queue;
      depth = flushed.depth ∙ zero_deep;
      workspaces = flushed.workspaces;
    })

-- The state in which the body has run, before the batch is closed.
abbrev pub ran : M Unit → State → State
ran body s = (body (open_batch s)).1

pub batch-Delivered :
    (body : M Unit) (s t : State)
    → s.batch_depth ≡ 0
    → Keeps (Tracks s) body
    → batch body s ≡ (ok tt, t)
    → Delivered s (ran body s) t
unfolding batch
batch-Delivered body s t outside keeps h = settled (body (open_batch s)) refl h
  where
    settled :
        (r : Result Error (Unit {0}) × State)
        → body (open_batch s) ≡ r
        → settle (length s.batch_queue) r ≡ (ok tt, t)
        → Delivered s (ran body s) t
    settled (throws e, u) p q = cc
    settled (ok a, u) p q =
        subst (Delivered s (ran body s)) (ap (λ x. close_batch x.1) p ∙ ap (λ x. x.1) q)
          (close-Delivered s (ran body s) outside (keeps.at (open_batch s) (open_batch-Tracks s)))
