-- ===== src/Stigmergy/Lease/Laws.antt =====
-- Who holds a lease, and what its history says.
use noware.Prelude.{
  ℕ, ◌≤◌, String, Bool, true, false, not, ◌&&◌, ◌≡◌, ◌≢◌, ◌↔◌, refl, Option, none, some, List, [],
  ◌∷◌, ◌++◌, arith, ◌==◌, eq_iff, ◌+◌, Bool-cases, inl, inr,
}
use noware.Stigmergy.Lease.{
  active, stolen, Acquisition, LeaseState, is_active_status, now, tick, acquisition, new_lease,
  hold, acquire, end_lease, release, is_active, if_active, steal, extend,
}

-- `steal` succeeds exactly on a lease that is active and not past its expiry.
pub steal_lem :
    (agent : String) (s : LeaseState)
    → ((steal agent s).0 ≡ true) ↔ ((s.lease.status ≡ active) × (now s ≤ s.lease.expires_at))
unfolding steal is_active acquire
steal_lem agent s = ground arith

-- The operations, in any order.
pub data Reaches (s : LeaseState) : LeaseState → Type 0 where
  start : Reaches s s
  acquires :
      {t : LeaseState} (agent : String) (ttl : Option ℕ)
      → Reaches s t
      → Reaches s (acquire agent ttl t).1
  releases : {t : LeaseState} (agent : String) → Reaches s t → Reaches s (release agent t).1
  steals : {t : LeaseState} (agent : String) → Reaches s t → Reaches s (steal agent t).1
  asks : {t : LeaseState} → Reaches s t → Reaches s (is_active t).1
  extends : {t : LeaseState} (ttl : ℕ) → Reaches s t → Reaches s (extend ttl t).1

abbrev pub last : List Acquisition → Option Acquisition
last [] = none
last (a ∷ []) = some a
last (a ∷ b ∷ l) = last (b ∷ l)

-- An active lease has an open entry of its holder at the end of its history.
abbrev pub IsOpen : LeaseState → Type 0
IsOpen s =
    s.lease.status ≡ active
    → last s.lease.acquisitions ≡ some (acquisition s.lease.agent s.lease.acquired_at)

last-append : (l : List Acquisition) (a : Acquisition) → last (l ++ a ∷ []) ≡ some a
last-append [] a = refl
last-append (b ∷ []) a = refl
last-append (b ∷ c ∷ l) a = last-append (c ∷ l) a

hold-IsOpen : (agent : String) (ttl : Option ℕ) (s : LeaseState) → IsOpen (hold agent ttl s)
hold-IsOpen agent ttl s _ = last-append s.lease.acquisitions _

acquire-IsOpen :
    (agent : String) (ttl : Option ℕ) (s : LeaseState) → IsOpen s → IsOpen (acquire agent ttl s).1
unfolding acquire
acquire-IsOpen agent ttl s h =
    elim (Bool-cases (is_active_status s.lease.status && not (s.lease.agent == agent))) [
      | inl e ↦ rw e h
      | inr e ↦ rw e (hold-IsOpen agent ttl s)
    ]

release-IsOpen : (agent : String) (s : LeaseState) → IsOpen s → IsOpen (release agent s).1
unfolding release
release-IsOpen agent s h = ground (arith, h)

is_active-IsOpen : (s : LeaseState) → IsOpen s → IsOpen (is_active s).1
unfolding is_active
is_active-IsOpen s h = ground (arith, h)

steal_if-IsOpen :
    (agent : String) (r : Bool × LeaseState)
    → IsOpen r.1
    → IsOpen (if_active r λ t. acquire agent none (end_lease stolen (some "stolen") t)).1
unfolding acquire
steal_if-IsOpen agent (false, s) h = h
steal_if-IsOpen agent (true, s) h = hold-IsOpen agent none (end_lease stolen (some "stolen") s)

extend_if-IsOpen :
    (ttl : ℕ) (r : Bool × LeaseState)
    → IsOpen r.1
    → IsOpen
        (if_active r
          λ t. (true, record (tick t) { lease = record t.lease { expires_at = now t + ttl } })).1
extend_if-IsOpen ttl (false, s) h = h
extend_if-IsOpen ttl (true, s) h = h

Reaches-IsOpen : {s t : LeaseState} → IsOpen s → Reaches s t → IsOpen t
unfolding steal extend
Reaches-IsOpen h start = h
Reaches-IsOpen h (acquires a l r) = acquire-IsOpen a l _ (Reaches-IsOpen h r)
Reaches-IsOpen h (releases a r) = release-IsOpen a _ (Reaches-IsOpen h r)
Reaches-IsOpen h (steals a r) = steal_if-IsOpen a _ (is_active-IsOpen _ (Reaches-IsOpen h r))
Reaches-IsOpen h (asks r) = is_active-IsOpen _ (Reaches-IsOpen h r)
Reaches-IsOpen h (extends l r) = extend_if-IsOpen l _ (is_active-IsOpen _ (Reaches-IsOpen h r))

-- Whatever is done with a new lease, while it is active its history ends with an entry of its holder
-- that was neither released nor stolen.
pub new_lease-IsOpen :
    (id atom agent : String) (ttl : Option ℕ) (clock : ℕ → ℕ) (t : LeaseState)
    → Reaches (new_lease id atom agent ttl clock) t
    → t.lease.status ≡ active
    → last t.lease.acquisitions ≡ some (acquisition t.lease.agent t.lease.acquired_at)
unfolding new_lease
new_lease-IsOpen id atom agent ttl clock t r = Reaches-IsOpen (λ _. refl) r

-- `acquire` is refused exactly while another holds a lease whose status is active. The clock is not
-- asked: a lease past its expiry is refused too until `isActive`, `steal` or `extend` looked at it.
pub acquire_lem :
    (agent : String) (ttl : Option ℕ) (s : LeaseState)
    → ((acquire agent ttl s).0 ≡ false) ↔ ((s.lease.status ≡ active) × (s.lease.agent ≢ agent))
unfolding acquire
acquire_lem agent ttl s = ground (arith, eq_iff s.lease.agent agent)
