-- ===== src/DockerProc/Process/Exit.antt =====
-- crates/docker-proc/src/lib.rs: a process is killed once.
use minibot_rust.Base.{◌≡◌, true, false, [], ◌∷◌, ◌++◌, ok, err, panic, if◌then◌else◌, arith}
use minibot_rust.DockerProc.Process.{Process, Outside, kill_args, exit}

-- A process that runs, with the threads that read its output.
abbrev pub IsRunning : Process → Type 0
IsRunning p = (p.running ≡ true) × (p.threads ≡ true)

-- The exit of a running process, with the drop behind it, runs one command to kill its container,
-- whatever goes wrong in either. It fails when the command or the wait for the child fails, panics
-- when a thread has panicked, and succeeds otherwise.
pub exit-killed :
    (o at_drop : Outside) (p : Process)
    → IsRunning p
    → ((exit o at_drop p).1.killed ≡ p.killed ++ kill_args p ∷ [])
      × ((exit o at_drop p).1.running ≡ false)
      × ((exit o at_drop p).0 ≡ (
          if o.kill_works
          then (if o.wait_works then (if o.threads_panicked then panic else ok tt) else err 1)
          else err 0))
unfolding exit
exit-killed o at_drop p h = ground arith
