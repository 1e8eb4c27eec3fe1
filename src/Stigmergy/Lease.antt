-- ===== src/Stigmergy/Lease.antt =====
-- `ClaimDO` of packages/cfour/src/index.ts: one lease on an atom, with an expiry and a history of
-- acquisitions. The state has the object and the readings of `Date.now()`.
pub mod Laws
mod Tests
use noware.Prelude.{
  ℕ, suc, ◌+◌, String, Bool, true, false, not, ◌&&◌, Option, none, some, List, [], ◌∷◌, ◌++◌, ltb,
  if◌then◌else◌, ◌==◌, get_or,
}

pub data Status : Type 0 where
  active released expired stolen : Status

pub record Acquisition : Type 0 where
  pub agent : String
  pub acquired_at : ℕ
  pub released_at : Option ℕ
  pub reason : Option String

pub record Lease : Type 0 where
  pub id : String
  pub atom_id : String
  pub agent : String
  pub status : Status
  pub acquired_at : ℕ
  pub expires_at : ℕ
  pub released_at : Option ℕ
  pub acquisitions : List Acquisition

pub record LeaseState : Type 0 where
  pub lease : Lease
  pub clock : ℕ → ℕ
  pub reads : ℕ

abbrev pub is_active_status : Status → Bool
is_active_status active = true
is_active_status _ = false

-- The next reading of the clock.
abbrev pub now : LeaseState → ℕ
now s = s.clock s.reads

abbrev pub tick : LeaseState → LeaseState
tick s = record s { reads = suc s.reads }

abbrev pub acquisition : String → ℕ → Acquisition
acquisition agent at = record { agent = agent; acquired_at = at; released_at = none; reason = none }

-- The constructor.
unfoldable pub new_lease : String → String → String → Option ℕ → (ℕ → ℕ) → LeaseState
new_lease id atom agent ttl clock = record {
  lease = record {
    id = id;
    atom_id = atom;
    agent = agent;
    status = active;
    acquired_at = clock 0;
    expires_at = clock 0 + get_or ttl 300_000;
    released_at = none;
    acquisitions = acquisition agent (clock 0) ∷ [];
  };
  clock = clock;
  reads = 1;
}

abbrev pub hold : String → Option ℕ → LeaseState → LeaseState
hold agent ttl s = record (tick s) {
  lease = record s.lease {
    agent = agent;
    status = active;
    acquired_at = now s;
    expires_at = now s + get_or ttl 300_000;
    released_at = none;
    acquisitions = s.lease.acquisitions ++ acquisition agent (now s) ∷ [];
  };
}

unfoldable pub acquire : String → Option ℕ → LeaseState → Bool × LeaseState
acquire agent ttl s =
    if is_active_status s.lease.status && not (s.lease.agent == agent)
    then (false, s)
    else (true, hold agent ttl s)

-- A change of the last entry.
unfoldable pub update_last : (Acquisition → Acquisition) → List Acquisition → List Acquisition
update_last f [] = []
update_last f (a ∷ []) = f a ∷ []
update_last f (a ∷ b ∷ l) = a ∷ update_last f (b ∷ l)

abbrev pub or_kept : Option String → Option String → Option String
or_kept none old = old
or_kept (some new) old = some new

-- The two readings of a release: the first for the lease, the second for the history.
abbrev pub end_lease : Status → Option String → LeaseState → LeaseState
end_lease status reason s =
    let later = tick s in
    record (tick later) {
      lease = record s.lease {
        status = status;
        released_at = some (now s);
        acquisitions =
            update_last
              (λ a. record a { released_at = some (now later); reason = or_kept reason a.reason })
              s.lease.acquisitions;
      };
    }

unfoldable pub release : String → LeaseState → Bool × LeaseState
unfolding update_last
release agent s =
    if not (s.lease.agent == agent)
    then (false, s)
    else if not (is_active_status s.lease.status)
    then (false, s)
    else (true, end_lease released none s)

-- An active lease that is past its expiry becomes an expired one.
unfoldable pub is_active : LeaseState → Bool × LeaseState
is_active s =
    if not (is_active_status s.lease.status)
    then (false, s)
    else if ltb s.lease.expires_at (now s)
    then (false, record (tick s) { lease = record s.lease { status = expired } })
    else (true, tick s)

abbrev pub if_active : Bool × LeaseState → (LeaseState → Bool × LeaseState) → Bool × LeaseState
if_active (false, s) f = (false, s)
if_active (true, s) f = f s

unfoldable pub steal : String → LeaseState → Bool × LeaseState
unfolding is_active acquire update_last
steal agent s = if_active (is_active s) λ t. acquire agent none (end_lease stolen (some "stolen") t)

unfoldable pub extend : ℕ → LeaseState → Bool × LeaseState
unfolding is_active
extend ttl s =
    if_active (is_active s)
      λ t. (true, record (tick t) { lease = record t.lease { expires_at = now t + ttl } })
