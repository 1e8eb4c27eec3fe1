-- ===== src/Stigmergy/Lease/Tests.antt =====
-- A lease that was stolen in time.
use noware.Prelude.{◌≡◌, refl, some}
use noware.Stigmergy.Lease.{
  LeaseState, acquisition, new_lease, acquire, steal, is_active, update_last,
}
use noware.Stigmergy.Lease.Laws.{start, steals, last, new_lease-IsOpen}

abbrev fresh : LeaseState
fresh = new_lease "l" "a" "ann" (some 10) (λ n. 5)

abbrev stolen_lease : LeaseState
stolen_lease = (steal "bob" fresh).1

new_lease-IsOpen_example :
    last stolen_lease.lease.acquisitions
    ≡ some (acquisition stolen_lease.lease.agent stolen_lease.lease.acquired_at)
unfolding steal is_active acquire update_last new_lease
new_lease-IsOpen_example =
    new_lease-IsOpen "l" "a" "ann" (some 10) (λ n. 5) stolen_lease (steals "bob" start) refl
