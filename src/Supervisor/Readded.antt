-- ===== src/Supervisor/Readded.antt =====
-- internal/server/server.go: a server that is removed, and another that is added under its name at once.
use do_daemon.Prelude.{Bytes, arith, equal_refl, false, none, refl, some, true, ℕ, ◌<◌, ◌≡◌}
use do_daemon.Supervisor.{
  Reach, System, add, add_step, after_start, begin, begin_step, cancel, cancel_step, check_step,
  decide, decide_step, finish, finish_step, free, here, is_done, later, looping, new_supervisor,
  remove, remove_step, return_step, returned, serving, set_pc, starting, stop_attempt_step,
  stop_current_attempt,
}
use do_daemon.Supervisor.Registry.{Reach-IsKept}

Reach-trans : {s t u : System} → Reach s t → Reach t u → Reach s u
Reach-trans a here = a
Reach-trans a (later b st) = later (Reach-trans a b) st

-- A `Remove` of a server that is running: its `Start` returns without an error, and then the call.
abbrev pub let_go : Bytes → ℕ → System → System
let_go name id s =
    record (finish id false
      (cancel id (s.entries id).attempt (stop_current_attempt id (remove name id s)))) {
        caller = free;
      }

let_go-Reach :
    (name : Bytes) (id v : ℕ) (s : System)
    → s.names name ≡ some id
    → s.caller ≡ free
    → (s.entries id).pc ≡ serving v
    → (0 < (s.entries id).attempt)
    → Reach s (let_go name id s)
unfolding cancel finish
let_go-Reach name id v s e c p some_attempt =
    let k = (s.entries id).attempt in
    later
      (later
        (later
          (later (later here (remove_step name id c e))
            (stop_attempt_step id (unfold remove in refl)))
          (cancel_step id k (unfold remove stop_current_attempt in ground arith)))
        (finish_step id v false (unfold cancel remove stop_current_attempt in ground arith)))
      (return_step id k refl (unfold is_done remove stop_current_attempt in ground arith))

-- The runner of entry `id` from its look at the map of entries to its next attempt.
abbrev pub goes_on : ℕ → System → System
goes_on id s = begin id (set_pc id starting (decide id false s))

goes_on-Reach :
    (id j : ℕ) (s : System)
    → (s.entries id).pc ≡ returned false
    → s.stopped ≡ false
    → s.names (s.entries id).name ≡ some j
    → Reach s (goes_on id s)
unfolding decide after_start
goes_on-Reach id j s p n bound =
    later
      (later (later here (decide_step id false p)) (check_step id (ground arith) (ground arith)))
      (begin_step id (ground arith))

-- A running server whose `Start` returns without an error when it is removed can be started once more by
-- its old runner if another server is added under its name before that runner looks at the map: then
-- the name has the new server, whose own runner has begun, and the old server runs beside it with no
-- call under way and the process not stopping.
pub readded-Reach-serving :
    (s : System) (name : Bytes) (id v srv : ℕ)
    → Reach new_supervisor s
    → s.names name ≡ some id
    → s.caller ≡ free
    → s.running ≡ true
    → s.stopped ≡ false
    → (s.entries id).pc ≡ serving v
    → (0 < (s.entries id).attempt)
    → (t : System) × Reach s t
      × (t.caller ≡ free)
      × (t.stopped ≡ false)
      × (t.names name ≡ some s.next)
      × ((t.entries s.next).srv ≡ srv)
      × ((t.entries s.next).pc ≡ looping)
      × ((t.entries id).pc ≡ serving (s.entries id).srv)
unfolding remove stop_current_attempt cancel finish add decide begin
readded-Reach-serving s name id v srv r e c run_is n p a =
    let kept = Reach-IsKept s name id r e in
    let gone = let_go name id s in
    let added = add name srv gone in
    let free_name : gone.names name ≡ none = ground (arith, equal_refl name) in
    (
      goes_on id added,
      Reach-trans (later (let_go-Reach name id v s e c p a) (add_step name srv refl free_name)) (
          goes_on-Reach id s.next added (ground (arith, kept.known)) (ground arith)
            (ground (arith, kept.known, kept.own, equal_refl name))),
      ground (arith, kept.known),
      ground (arith, kept.known),
      ground (arith, kept.known, equal_refl name),
      ground (arith, kept.known),
      ground (arith, kept.known, run_is),
      ground (arith, kept.known),
    )
