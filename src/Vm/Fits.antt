-- ===== src/Vm/Fits.antt =====
-- An invariant of the variables that tinypipe-vm/src/compiled_executor.rs keeps while it runs.
use tinypipe.Prelude.{ℕ, ◌≤◌, ◌≡◌, length}
use tinypipe.Vm.Machine.{State, IsLocalTo, wrote, same}

-- There are `n` control counters, and, if `Serial` holds, the node count is within the limit.
pub record Fits {F : Type 0} (n limit : ℕ) (Serial : Type 0) (st : State F) : Type 0 where
  pub counters : length st.control_satisfied ≡ n
  pub counted : Serial → st.node_count ≤ limit

pub IsLocalTo-Fits :
    {F : Type 0} {n limit i : ℕ} {Serial : Type 0} {st st' : State F}
    → IsLocalTo i st st'
    → Fits n limit Serial st
    → Fits n limit Serial st'
IsLocalTo-Fits (wrote v c e) h = rw e (record { counters = h.counters; counted = h.counted })
IsLocalTo-Fits (same e) h = rw e h
