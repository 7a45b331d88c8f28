-- ===== src/DockerProc/Lines.antt =====
-- crates/docker-proc/src/lib.rs: `StdIoHandlerInner::handle_stream` for the line waiter and the
-- other handlers, and `read_container_id`. A line is none where reading it fails.
pub mod InOrder
use minibot_rust.Base.{
  ℕ, zero, suc, ◌+◌, Bool, true, false, List, [], ◌∷◌, ◌++◌, Option, none, some, ◌==◌, ◌||◌, ◌&&◌,
  ltb, if◌then◌else◌, Bytes, length, get_elem?,
}

-- `str::contains`.
unfoldable pub starts_with : Bytes → Bytes → Bool
starts_with line [] = true
starts_with [] (p ∷ ps) = false
starts_with (c ∷ line) (p ∷ ps) = c == p && starts_with line ps

unfoldable pub contains : Bytes → Bytes → Bool
unfolding starts_with
contains [] pattern = starts_with [] pattern
contains (c ∷ line) pattern =
    let later = contains line pattern in starts_with (c ∷ line) pattern || later

-- `curr_index`, and how often `ready` has been sworn to.
pub record Waiter : Type 0 where
  pub curr_index : ℕ
  pub sworn : ℕ

matches : Option Bytes → Bytes → Bool
matches none line = false
matches (some wanted) line = contains line wanted

-- A round of the loop of the line waiter.
unfoldable pub see_line : List Bytes → Bytes → Waiter → Waiter
unfolding matches
see_line lines line w =
    if ltb w.curr_index (length lines) && matches (get_elem? lines w.curr_index) line
    then record {
      curr_index = w.curr_index + 1;
      sworn = (if w.curr_index + 1 == length lines then w.sworn + 1 else w.sworn);
    }
    else w

-- The loop, and whether it came to the end of the stream.
unfoldable pub wait_lines : List Bytes → List (Option Bytes) → Waiter → Bool × Waiter
wait_lines lines [] w = (true, w)
wait_lines lines (none ∷ stream) w = (false, w)
wait_lines lines (some line ∷ stream) w = wait_lines lines stream (see_line lines line w)

unfoldable pub start_waiting : Waiter
start_waiting = record { curr_index = 0; sworn = 0 }

-- A round of `read_container_id`: whether the deadline has passed, and what reading the file gives.
pub data FileRead : Type 0 where
  content : Bytes → FileRead
  not_found : FileRead
  failed : ℕ → FileRead

pub data IdResult : Type 0 where
  container_id : Bytes → IdResult
  timed_out : IdResult
  io_error : ℕ → IdResult

read_again : FileRead → Option IdResult
read_again (content text) = if length text == 64 then some (container_id text) else none
read_again not_found = none
read_again (failed e) = some (io_error e)

unfoldable pub read_round : Bool → FileRead → Option IdResult
unfolding read_again
read_round late file = if late then some timed_out else read_again file

-- The loop over rounds; none while it goes on.
unfoldable pub read_container_id : List (Bool × FileRead) → Option IdResult
read_container_id [] = none
read_container_id ((late, file) ∷ rounds) = elim (read_round late file) [
  | some r ↦ some r
  | none ↦ read_container_id rounds
]
