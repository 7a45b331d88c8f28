-- ===== src/DockerProc/Lines/InOrder.antt =====
-- crates/docker-proc/src/lib.rs: when a line waiter is ready, and what a container id is.
use minibot_rust.Base.{
  ℕ, ◌≡◌, refl, ap, ◌∙◌, Bool, true, false, List, [], ◌∷◌, map, some, if◌then◌else◌, Bytes, length,
  arith,
}
use minibot_rust.DockerProc.Lines.{
  contains, Waiter, see_line, wait_lines, start_waiting, FileRead, content, not_found, failed,
  container_id, read_round, read_container_id,
}

-- The wanted texts occur in lines of the stream, one line for each, in order.
pub data InOrder : List Bytes → List Bytes → Type 0 where
  all_seen : (stream : List Bytes) → InOrder [] stream
  seen :
      (w line : Bytes) {wanted stream : List Bytes}
      → contains line w ≡ true
      → InOrder wanted stream
      → InOrder (w ∷ wanted) (line ∷ stream)
  unseen :
      (line : Bytes) {wanted stream : List Bytes}
      → InOrder wanted stream
      → InOrder wanted (line ∷ stream)

-- The first line that has a text is taken for it.
greedy : List Bytes → List Bytes → Bool
greedy [] stream = true
greedy (w ∷ wanted) [] = false
greedy (w ∷ wanted) (line ∷ stream) =
    let hit = greedy wanted stream in
    let miss = greedy (w ∷ wanted) stream in if contains line w then hit else miss

-- The waiter that has seen some of the texts.
abbrev waiting : List Bytes → ℕ → Waiter
waiting before sworn = record { curr_index = length before; sworn = sworn }

see_line-done :
    (lines : List Bytes) (line : Bytes) (sworn : ℕ)
    → see_line lines line (waiting lines sworn) ≡ waiting lines sworn
unfolding see_line
see_line-done lines line sworn = ground arith

wait_lines-done :
    (lines stream : List Bytes) (sworn : ℕ)
    → wait_lines lines (map some stream) (waiting lines sworn) ≡ (true, waiting lines sworn)
unfolding wait_lines
wait_lines-done lines [] sworn = refl
wait_lines-done lines (line ∷ stream) sworn =
    ap (wait_lines lines (map some stream)) (see_line-done lines line sworn)
    ∙ wait_lines-done lines stream sworn

abbrev swears : Bool → ℕ
swears true = 1
swears false = 0

-- A line waiter with no text never swears to be ready.
pub wait_lines-nil :
    (stream : List Bytes) → (wait_lines [] (map some stream) start_waiting).1.sworn ≡ 0
unfolding start_waiting
wait_lines-nil stream = ap (λ r. r.1.sworn) (wait_lines-done [] stream 0)

-- A container id is 64 bytes long, and has been read in a round before the deadline.
pub read_container_id-length :
    (rounds : List (Bool × FileRead)) (id : Bytes)
    → read_container_id rounds ≡ some (container_id id)
    → length id ≡ 64
unfolding read_container_id read_round
read_container_id-length [] id h = cc
read_container_id-length ((true, file) ∷ rounds) id h = cc
read_container_id-length ((false, content text) ∷ rounds) id h =
    ground (arith, h, read_container_id-length rounds id)
read_container_id-length ((false, not_found) ∷ rounds) id h = read_container_id-length rounds id h
read_container_id-length ((false, failed e) ∷ rounds) id h = cc
