-- ===== src/Supervisor/Registry.antt =====
-- Which entries internal/server/server.go keeps alive.
use do_daemon.Prelude.{
  Bool, Bytes, arith, equal_iff, equal_refl, false, none, refl, some, true, ℕ, ◌<◌, ◌≡◌, ◌⊎◌,
}
use do_daemon.Supervisor.{
  Pc, Reach, Step, System, add, add_step, after_start, backing_off, begin, begin_step, cancel,
  cancel_step, check_step, decide, decide_step, ended, finish, finish_step, free, give_up_step,
  here, is_done, later, new_supervisor, quit_step, remove, remove_step, replace, replace_step,
  return_step, run, run_step, serving, set_pc, shutting_down, starting, stop_attempt_step,
  stop_current_attempt, stop_step, swap, swap_step, unstarted, wake, wake_step, wind_down_step,
}

-- A runner that has begun and has not returned.
abbrev pub is_alive : Pc → Bool
is_alive unstarted = false
is_alive ended = false
is_alive _ = true

-- Of entry `id`, registered under `name`: it is the name's own, and while the process runs and is not
-- stopping its runner is alive.
pub record IsKept (s : System) (name : Bytes) (id : ℕ) : Type 0 where
  pub known : id < s.next
  pub own : (s.entries id).name ≡ name
  pub alive : (is_alive (s.entries id).pc ≡ true) ⊎ ((s.running ≡ false) ⊎ (s.stopped ≡ true))

abbrev pub AreKept : System → Type 0
AreKept s = (name : Bytes) (id : ℕ) → s.names name ≡ some id → IsKept s name id

add-AreKept : (name : Bytes) (srv : ℕ) (s : System) → AreKept s → AreKept (add name srv s)
unfolding add
add-AreKept name srv s h n id e = ground (arith, equal_iff name n, h n id)

replace-AreKept : (id srv : ℕ) (s : System) → AreKept s → AreKept (replace id srv s)
unfolding replace
replace-AreKept i srv s h n id e = ground (arith, h n id)

swap-AreKept :
    (id srv : ℕ) (running : Bool) (s : System) → AreKept s → AreKept (swap id srv running s)
unfolding swap
swap-AreKept i srv r s h n id e = ground (arith, h n id)

stop-AreKept : (id : ℕ) (s : System) → AreKept s → AreKept (stop_current_attempt id s)
unfolding stop_current_attempt
stop-AreKept i s h n id e = ground (arith, h n id)

remove-AreKept : (name : Bytes) (id : ℕ) (s : System) → AreKept s → AreKept (remove name id s)
unfolding remove
remove-AreKept name i s h n id e = ground (arith, h n id)

cancel-AreKept : (id attempt : ℕ) (s : System) → AreKept s → AreKept (cancel id attempt s)
unfolding cancel
cancel-AreKept i k s h n id e = ground (arith, h n id)

run-AreKept : (s : System) → AreKept s → AreKept (run s)
unfolding run
run-AreKept s h n id e = ground (arith, h n id)

begin-AreKept : (id : ℕ) (s : System) → AreKept s → AreKept (begin id s)
unfolding begin
begin-AreKept i s h n id e = ground (arith, h n id)

finish-AreKept : (id : ℕ) (failed : Bool) (s : System) → AreKept s → AreKept (finish id failed s)
unfolding finish
finish-AreKept i failed s h n id e = ground (arith, h n id)

decide-AreKept : (id : ℕ) (failed : Bool) (s : System) → AreKept s → AreKept (decide id failed s)
unfolding decide after_start
decide-AreKept i failed s h n id e = ground (arith, h n id)

wake-AreKept : (id : ℕ) (s : System) → AreKept s → AreKept (wake id s)
unfolding wake
wake-AreKept i s h n id e = ground (arith, h n id)

check-AreKept : (id : ℕ) (s : System) → AreKept s → AreKept (set_pc id starting s)
check-AreKept i s h n id e = ground (arith, h n id)

end-AreKept : (id : ℕ) (s : System) → s.stopped ≡ true → AreKept s → AreKept (set_pc id ended s)
end-AreKept i s d h n id e = ground (arith, h n id)

Step-AreKept : {s t : System} → Step s t → AreKept s → AreKept t
Step-AreKept {s} (add_step name srv c e) h = add-AreKept name srv s h
Step-AreKept {s} (replace_step name id srv c e) h = replace-AreKept id srv s h
Step-AreKept {s} (remove_step name id c e) h = remove-AreKept name id s h
Step-AreKept {s} (swap_step id srv running c) h = swap-AreKept id srv running s h
Step-AreKept {s} (stop_attempt_step id c) h = stop-AreKept id s h
Step-AreKept {s} (cancel_step id k c) h = cancel-AreKept id k s h
Step-AreKept {s} (return_step id k c d) h = λ n i e. ground (arith, h n i)
Step-AreKept {s} (run_step c r n) h = run-AreKept s h
Step-AreKept {s} (stop_step r) h = λ n i e. ground (arith, h n i)
Step-AreKept {s} (wind_down_step d) h = λ n i e. ground (arith, h n i)
Step-AreKept {s} (check_step id e n) h = check-AreKept id s h
Step-AreKept {s} (begin_step id e) h = begin-AreKept id s h
Step-AreKept {s} (quit_step id e d) h = end-AreKept id s d h
Step-AreKept {s} (finish_step id v failed e) h = finish-AreKept id failed s h
Step-AreKept {s} (decide_step id failed e) h = decide-AreKept id failed s h
Step-AreKept {s} (wake_step id e) h = wake-AreKept id s h
Step-AreKept {s} (give_up_step id e d) h = end-AreKept id s d h

new-AreKept : AreKept new_supervisor
new-AreKept n id e = cc

Reach-AreKept : {s : System} → Reach new_supervisor s → AreKept s
Reach-AreKept here = new-AreKept
Reach-AreKept (later r st) = Step-AreKept st (Reach-AreKept r)

-- In every state that the supervisor can reach, whatever the servers do: a registered name has an
-- entry of its own, and while the process runs and is not stopping that entry's runner is alive. No
-- crash and no return of `Start` makes the supervisor give up on a registered server.
pub Reach-IsKept :
    (s : System) (name : Bytes) (id : ℕ)
    → Reach new_supervisor s
    → s.names name ≡ some id
    → IsKept s name id
Reach-IsKept s name id r e = Reach-AreKept r name id e

-- What a `Remove` of a server whose runner waits out its backoff leaves.
abbrev pub removed : Bytes → ℕ → System → System
removed name id s =
    record (cancel id (s.entries id).attempt (stop_current_attempt id (remove name id s))) {
      caller = free;
    }

remove-Reach :
    (name : Bytes) (id : ℕ) (s : System)
    → s.names name ≡ some id
    → s.caller ≡ free
    → (s.entries id).pc ≡ backing_off
    → (0 < (s.entries id).attempt)
    → Reach s (removed name id s)
unfolding cancel
remove-Reach name id s e c b some_attempt =
    later
      (later
        (later (later here (remove_step name id c e))
          (stop_attempt_step id (unfold remove in refl)))
        (cancel_step id _ shutting))
      (return_step id (s.entries id).attempt refl done)
  where
    shutting :
        (stop_current_attempt id (remove name id s)).caller
        ≡ shutting_down id (s.entries id).attempt
    shutting = unfold remove stop_current_attempt in ground arith

    done :
        is_done id
          (s.entries id).attempt
          (cancel id (s.entries id).attempt (stop_current_attempt id (remove name id s)))
        ≡ true
    done = unfold is_done cancel remove stop_current_attempt in ground arith

-- A server that is removed while its runner waits out the backoff, in a process that is not stopping,
-- can be started again once `Remove` has returned, with its name no longer registered.
pub removed-Reach-serving :
    (s : System) (name : Bytes) (id : ℕ)
    → s.names name ≡ some id
    → s.caller ≡ free
    → s.stopped ≡ false
    → (s.entries id).pc ≡ backing_off
    → (0 < (s.entries id).attempt)
    → (u : System) × Reach s (removed name id s)
      × Reach (removed name id s) u
      × (u.names name ≡ none)
      × (u.caller ≡ free)
      × ((u.entries id).pc ≡ serving (s.entries id).srv)
unfolding remove stop_current_attempt cancel wake begin
removed-Reach-serving s name id e c n b a = (
  begin id (set_pc id starting (wake id (removed name id s))),
  remove-Reach name id s e c b a,
  later
      (later (later here (wake_step id (ground arith)))
        (check_step id (ground arith) (ground arith)))
      (begin_step id (ground arith)),
  ground (arith, equal_refl name),
  ground arith,
  ground arith,
)
