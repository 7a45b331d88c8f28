-- ===== src/DockerProc/Process.antt =====
-- crates/docker-proc/src/lib.rs: the end of a `Process`, by `exit` or by being dropped. Whether the
-- commands work, and whether a thread that reads the output has panicked, is outside.
pub mod Exit
use minibot_rust.Base.{
  ℕ, Bool, true, false, List, [], ◌∷◌, ◌++◌, Option, none, some, Bytes, codes, Outcome, ok, err,
  panic, out_of_fuel, if◌then◌else◌,
}
use minibot_rust.DockerProc.{Signal, as_signal_name}

-- `running`: `process` is there. `threads`: both handles are. `killed`: the commands that have been
-- run. `waited`: the child has been waited for.
pub record Process : Type 0 where
  pub running : Bool
  pub threads : Bool
  pub id : Bytes
  pub exit_signal : Signal
  pub killed : List (List Bytes)
  pub waited : Bool

pub record Outside : Type 0 where
  pub kill_works : Bool
  pub wait_works : Bool
  pub threads_panicked : Bool

unfoldable pub kill_args : Process → List Bytes
kill_args p = codes "kill" ∷ (codes "--signal=" ++ as_signal_name p.exit_signal) ∷ p.id ∷ []

-- Taking the handles and joining the threads.
join_threads : Bool → Bool → Process → Outcome ℕ (Unit {0}) × Process
join_threads false panicked p = (panic, p)
join_threads true panicked p = ((if panicked then panic else ok tt), record p { threads = false })

wait_child : Outside → Process → Outcome ℕ (Unit {0}) × Process
unfolding join_threads
wait_child o p =
    if o.wait_works
    then join_threads p.threads o.threads_panicked (record p { waited = true })
    else (err 1, p)

stop_child : Outside → Process → Outcome ℕ (Unit {0}) × Process
unfolding wait_child
stop_child o p =
    if o.kill_works
    then wait_child o (record p { killed = p.killed ++ kill_args p ∷ [] })
    else (err 0, record p { killed = p.killed ++ kill_args p ∷ [] })

unfoldable pub inner_exit : Outside → Process → Outcome ℕ (Unit {0}) × Process
unfolding stop_child kill_args
inner_exit o p = if p.running then stop_child o (record p { running = false }) else (ok tt, p)

-- `Process::exit`: the process is dropped at the end of the call, which calls `inner_exit` again.
unfoldable pub exit : Outside → Outside → Process → Outcome ℕ (Unit {0}) × Process
unfolding inner_exit
exit o at_drop p = let (r, p') = inner_exit o p in (r, (inner_exit at_drop p').1)
