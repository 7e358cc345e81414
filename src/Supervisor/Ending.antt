-- ===== src/Supervisor/Ending.antt =====
-- How internal/server/server.go winds down, and how long it backs off.
use native.Mathlib.Numerals.{unary_clauses}
use do_daemon.Prelude.{Bool, arith, false, min, suc, true, zero, ℕ, ◌*◌, ◌<◌, ◌^◌, ◌≡◌, ◌≤◌, ◌⊎◌}
use do_daemon.Supervisor.{
  Pc, Step, System, after_start, backing_off, begin, begin_step, check_step, decide, decide_step,
  ended, finish, finish_step, first_backoff, give_up_step, looping, max_backoff, next_backoff,
  quit_step, returned, serving, set_pc, starting, unstarted, wake, wake_step,
}

-- The steps that are left to a runner of a process that is stopping, `Start` included.
abbrev pub steps_left : Pc → ℕ
steps_left unstarted = 0
steps_left looping = 1
steps_left starting = 3
steps_left (serving v) = 2
steps_left (returned failed) = 1
steps_left backing_off = 2
steps_left ended = 0

-- The steps of one runner, as those of the whole system.
pub data RunnerStep (id : ℕ) (s : System) : System → Type 0 where
  quits : (s.entries id).pc ≡ looping → s.stopped ≡ true → RunnerStep id s (set_pc id ended s)
  checks : (s.entries id).pc ≡ looping → s.stopped ≡ false → RunnerStep id s (set_pc id starting s)
  begins : (s.entries id).pc ≡ starting → RunnerStep id s (begin id s)
  finishes :
      (v : ℕ) (failed : Bool) → (s.entries id).pc ≡ serving v → RunnerStep id s (finish id failed s)
  decides :
      (failed : Bool) → (s.entries id).pc ≡ returned failed → RunnerStep id s (decide id failed s)
  wakes : (s.entries id).pc ≡ backing_off → RunnerStep id s (wake id s)
  gives_up :
      (s.entries id).pc ≡ backing_off → s.stopped ≡ true → RunnerStep id s (set_pc id ended s)

RunnerStep-Step : {id : ℕ} {s t : System} → RunnerStep id s t → Step s t
RunnerStep-Step {id} (quits e d) = quit_step id e d
RunnerStep-Step {id} (checks e n) = check_step id e n
RunnerStep-Step {id} (begins e) = begin_step id e
RunnerStep-Step {id} (finishes v failed e) = finish_step id v failed e
RunnerStep-Step {id} (decides failed e) = decide_step id failed e
RunnerStep-Step {id} (wakes e) = wake_step id e
RunnerStep-Step {id} (gives_up e d) = give_up_step id e d

-- Once the process is stopping, every step of an entry's runner brings it nearer to its end: at most
-- three are left to any runner, the return of `Start` among them. A new attempt is begun only by a runner
-- that had already looked at the context.
pub steps_left-RunnerStep :
    {id : ℕ} {s t : System}
    → RunnerStep id s t
    → s.stopped ≡ true
    → (t.stopped ≡ true)
      × ((steps_left (t.entries id).pc < steps_left (s.entries id).pc)
          × (steps_left (s.entries id).pc ≤ 3)
          × (((t.entries id).attempt ≡ (s.entries id).attempt) ⊎ ((s.entries id).pc ≡ starting)))
unfolding finish decide after_start wake begin
steps_left-RunnerStep {id} (quits e d) h = ground arith
steps_left-RunnerStep {id} (checks e n) h = cc
steps_left-RunnerStep {id} (begins e) h = ground arith
steps_left-RunnerStep {id} (finishes v failed e) h = ground arith
steps_left-RunnerStep {id} (decides failed e) h = ground arith
steps_left-RunnerStep {id} (wakes e) h = ground arith
steps_left-RunnerStep {id} (gives_up e d) h = ground arith

-- The backoff behind `n` crashes, `time.Second` at first.
abbrev pub backoff_after : ℕ → ℕ
backoff_after zero = first_backoff
backoff_after (suc n) = next_backoff (backoff_after n)

-- The backoff behind `n` crashes is 2 ^ n seconds, cut off at 30.
pub backoff_after-eq-min : (n : ℕ) → backoff_after n ≡ min (2 ^ n) max_backoff
unfolding next_backoff
backoff_after-eq-min zero = omega arith
backoff_after-eq-min (suc n) =
    let double : 2 ^ suc n ≡ 2 ^ n * 2 = simp unary_clauses (omega arith) in
    ground (arith, backoff_after-eq-min n, double)
