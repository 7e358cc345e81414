-- ===== src/Supervisor/Running.antt =====
-- Which server an entry of internal/server/server.go runs, and when.
use do_daemon.Prelude.{
  Bool, Bytes, arith, false, not, refl, true, ℕ, ◌&&◌, ◌<◌, ◌==◌, ◌≡◌, ◌≤◌, ◌⊎◌,
}
use do_daemon.Supervisor.{
  Caller, Entry, Pc, Reach, Step, System, add, add_step, after_start, awaiting, backing_off, begin,
  begin_step, cancel, cancel_step, check_step, decide, decide_step, ended, finish, finish_step,
  first_backoff, free, give_up_step, here, is_done, later, looping, max_backoff, new_supervisor,
  not_serving, quit_step, remove, remove_step, replace, replace_step, return_step, returned, run,
  run_step, serving, set_pc, shutting_down, starting, stop_attempt_step, stop_current_attempt,
  stop_step, stopping, swap, swap_step, swapping, unstarted, wake, wake_step, wind_down_step,
}

abbrev pub serves_current : Pc → ℕ → Bool
serves_current (serving v) srv = v == srv
serves_current _ srv = true

abbrev pub is_unstarted : Pc → Bool
is_unstarted unstarted = true
is_unstarted _ = false

-- A call is under way that will wait for this attempt.
abbrev pub owes : Caller → ℕ → ℕ → Bool
owes (shutting_down i k) id attempt = i == id && k == attempt
owes (awaiting i k) id attempt = i == id && k == attempt
owes _ id attempt = false

-- A `Replace` is under way that found the process not running.
abbrev pub saw_idle : Caller → Bool
saw_idle (swapping id srv running) = not running
saw_idle _ = false

-- Of one entry: it serves its newest server unless a `Replace` or `Remove` is still under way or the
-- process stops; it serves only in an attempt that is counted; its backoff is from 1 to 30 seconds; it
-- is not started before `Run`; and a `Replace` that found the process not running finds it so still.
pub record IsSound (s : System) (id : ℕ) (e : Entry) : Type 0 where
  pub current :
      (serves_current e.pc e.srv ≡ true)
      ⊎ ((owes s.caller id e.attempt ≡ true) ⊎ (s.stopped ≡ true))
  pub counted : (not_serving e.pc ≡ true) ⊎ (0 < e.attempt)
  pub least : first_backoff ≤ e.backoff
  pub most : e.backoff ≤ max_backoff
  pub calm : (saw_idle s.caller ≡ false) ⊎ (s.running ≡ false)
  pub waits : (s.running ≡ true) ⊎ ((s.stopped ≡ true) ⊎ (is_unstarted e.pc ≡ true))

abbrev pub AreSound : System → Type 0
AreSound s = (id : ℕ) → IsSound s id (s.entries id)

add-AreSound : (name : Bytes) (srv : ℕ) (s : System) → AreSound s → AreSound (add name srv s)
unfolding add
add-AreSound name srv s h id = ground (arith, h id)

replace-AreSound :
    (id srv : ℕ) (s : System) → s.caller ≡ free → AreSound s → AreSound (replace id srv s)
unfolding replace
replace-AreSound i srv s c h id = ground (arith, h id)

swap-AreSound :
    (id srv : ℕ) (running : Bool) (s : System)
    → s.caller ≡ swapping id srv running
    → AreSound s
    → AreSound (swap id srv running s)
unfolding swap
swap-AreSound i srv true s c h id = ground (arith, h id)
swap-AreSound i srv false s c h id = ground (arith, h id)

stop-AreSound :
    (id : ℕ) (s : System)
    → s.caller ≡ stopping id
    → AreSound s
    → AreSound (stop_current_attempt id s)
unfolding stop_current_attempt
stop-AreSound i s c h id = ground (arith, h id)

remove-AreSound :
    (name : Bytes) (id : ℕ) (s : System)
    → s.caller ≡ free
    → AreSound s
    → AreSound (remove name id s)
unfolding remove
remove-AreSound name i s c h id = ground (arith, h id)

cancel-AreSound :
    (id attempt : ℕ) (s : System)
    → s.caller ≡ shutting_down id attempt
    → AreSound s
    → AreSound (cancel id attempt s)
unfolding cancel
cancel-AreSound i k s c h id = ground (arith, h id)

return-AreSound :
    (id attempt : ℕ) (s : System)
    → s.caller ≡ awaiting id attempt
    → is_done id attempt s ≡ true
    → AreSound s
    → AreSound (record s { caller = free })
unfolding is_done
return-AreSound i k s c d h id = ground (arith, h id)

run-AreSound : (s : System) → s.caller ≡ free → AreSound s → AreSound (run s)
unfolding run
run-AreSound s c h id = ground (arith, h id)

begin-AreSound :
    (id : ℕ) (s : System) → (s.entries id).pc ≡ starting → AreSound s → AreSound (begin id s)
unfolding begin
begin-AreSound i s l h id = ground (arith, h id)

finish-AreSound :
    (id v : ℕ) (failed : Bool) (s : System)
    → (s.entries id).pc ≡ serving v
    → AreSound s
    → AreSound (finish id failed s)
unfolding finish
finish-AreSound i v failed s e h id = ground (arith, h id)

-- An entry whose runner has begun may move to any place from which no server is running.
move-AreSound :
    (id : ℕ) (pc : Pc) (s : System)
    → is_unstarted (s.entries id).pc ≡ false
    → not_serving pc ≡ true
    → AreSound s
    → AreSound (set_pc id pc s)
move-AreSound i unstarted s u n h id = ground (arith, h id)
move-AreSound i looping s u n h id = ground (arith, h id)
move-AreSound i starting s u n h id = ground (arith, h id)
move-AreSound i (serving v) s u n h id = cc
move-AreSound i (returned failed) s u n h id = ground (arith, h id)
move-AreSound i backing_off s u n h id = ground (arith, h id)
move-AreSound i ended s u n h id = ground (arith, h id)

after_start-not_serving :
    (stopped failed registered : Bool) → not_serving (after_start stopped failed registered) ≡ true
unfolding after_start
after_start-not_serving stopped failed registered = ground arith

wake-AreSound :
    (id : ℕ) (s : System) → (s.entries id).pc ≡ backing_off → AreSound s → AreSound (wake id s)
unfolding wake
wake-AreSound i s e h id = ground (arith, h id)

Step-AreSound : {s t : System} → Step s t → AreSound s → AreSound t
unfolding decide
Step-AreSound {s} (add_step name srv c e) h = add-AreSound name srv s h
Step-AreSound {s} (replace_step name id srv c e) h = replace-AreSound id srv s c h
Step-AreSound {s} (remove_step name id c e) h = remove-AreSound name id s c h
Step-AreSound {s} (swap_step id srv running c) h = swap-AreSound id srv running s c h
Step-AreSound {s} (stop_attempt_step id c) h = stop-AreSound id s c h
Step-AreSound {s} (cancel_step id k c) h = cancel-AreSound id k s c h
Step-AreSound {s} (return_step id k c d) h = return-AreSound id k s c d h
Step-AreSound {s} (run_step c r n) h = run-AreSound s c h
Step-AreSound {s} (stop_step r) h = λ id. ground (arith, h id)
Step-AreSound {s} (wind_down_step d) h = λ id. ground (arith, h id)
Step-AreSound {s} (check_step id e n) h = move-AreSound id starting s (ground arith) refl h
Step-AreSound {s} (begin_step id e) h = begin-AreSound id s e h
Step-AreSound {s} (quit_step id e d) h = move-AreSound id ended s (ground arith) refl h
Step-AreSound {s} (finish_step id v failed e) h = finish-AreSound id v failed s e h
Step-AreSound {s} (decide_step id failed e) h =
    move-AreSound id _ s (ground arith) (after_start-not_serving s.stopped failed _) h
Step-AreSound {s} (wake_step id e) h = wake-AreSound id s e h
Step-AreSound {s} (give_up_step id e d) h = move-AreSound id ended s (ground arith) refl h

new-AreSound : AreSound new_supervisor
new-AreSound id = ground arith

Reach-AreSound : {s : System} → Reach new_supervisor s → AreSound s
Reach-AreSound here = new-AreSound
Reach-AreSound (later r st) = Step-AreSound st (Reach-AreSound r)

-- In every state that the supervisor can reach, whatever the servers do: an entry that runs a server
-- runs the one last given to it by `Add` or `Replace`, unless a call that waits for that very attempt
-- has not returned or the process is stopping. Every backoff is from 1 to 30 seconds, and before `Run`
-- no entry is started.
pub Reach-IsSound : (s : System) (id : ℕ) → Reach new_supervisor s → IsSound s id (s.entries id)
Reach-IsSound s id r = Reach-AreSound r id

serves_current-eq : (v srv : ℕ) → serves_current (serving v) srv ≡ true → v ≡ srv
serves_current-eq v srv h = ground arith

-- When no call is under way and the process is not stopping, a server that runs is its entry's newest.
pub serving-newest :
    (s : System) (id v : ℕ)
    → Reach new_supervisor s
    → s.caller ≡ free
    → s.stopped ≡ false
    → (s.entries id).pc ≡ serving v
    → v ≡ (s.entries id).srv
serving-newest s id v r c n e = ground (arith, Reach-IsSound s id r)
