-- ===== src/TokenSource.antt =====
-- crates/server/src/services/live/twitch/token_source.rs: the tokens that limit the calls to
-- Twitch. A waiter is a number; `alive` says whose receiver still exists when tokens are added.
-- The counters are `usize`; they wrap, as in a release build.
pub mod Fairness
pub mod Overrun
mod Tests
use minibot_rust.Base.{
  ℕ, ◌+◌, ◌-◌, ◌%◌, ◌^◌, min, Bool, true, false, List, [], ◌∷◌, ◌++◌, ◌==◌, ltb, if◌then◌else◌,
}

abbrev pub usize_mod : ℕ
usize_mod = 2 ^ 64

abbrev pub add_usize : ℕ → ℕ → ℕ
add_usize a b = (a + b) % usize_mod

abbrev pub sub_usize : ℕ → ℕ → ℕ
sub_usize a b = (a + usize_mod - b) % usize_mod

pub record State : Type 0 where
  pub curr_tokens : ℕ
  pub curr_running : ℕ
  pub notifiers : List ℕ

pub new : ℕ → State
new max_tokens = record { curr_tokens = max_tokens; curr_running = 0; notifiers = [] }

-- The flag says that the caller goes on at once; else it waits in the queue as `id`.
unfoldable pub take_token : ℕ → State → State × Bool
take_token id s =
    if ltb 0 s.curr_tokens
    then (
      record s {
        curr_tokens = sub_usize s.curr_tokens 1;
        curr_running = add_usize s.curr_running 1;
      },
      true,
    )
    else (record s { notifiers = s.notifiers ++ id ∷ [] }, false)

unfoldable pub restore_slot : State → State
restore_slot s = record s { curr_running = sub_usize s.curr_running 1 }

-- What the loop of `add_tokens` works on, with the waiters that it has woken.
pub record Waking : Type 0 where
  pub num_tokens : ℕ
  pub running : ℕ
  pub waiting : List ℕ
  pub woken : List ℕ

-- The loop: `pop_front`, skip the dropped, wake the others until the tokens are used up.
unfoldable pub wake : (ℕ → Bool) → ℕ → ℕ → List ℕ → Waking
wake alive num running [] = record { num_tokens = num; running = running; waiting = []; woken = [] }
wake alive num running (tx ∷ rest) =
    let num' = sub_usize num 1 in
    let running' = add_usize running 1 in
    let next = wake alive num' running' rest in
    let skipped = wake alive num running rest in
    let one : Waking = record {
      num_tokens = num';
      running = running';
      waiting = rest;
      woken = tx ∷ [];
    } in
    let onward : Waking = record next { woken = tx ∷ next.woken } in
    if alive tx then (if num' == 0 then one else onward) else skipped

unfoldable pub add_tokens : ℕ → (ℕ → Bool) → ℕ → State → State × List ℕ
unfolding wake
add_tokens max_tokens alive num s =
    let w = wake alive (min num (max_tokens - s.curr_running)) s.curr_running s.notifiers in
    if num == 0 then (s, []) else (
      record {
        curr_tokens = add_usize s.curr_tokens w.num_tokens;
        curr_running = w.running;
        notifiers = w.waiting;
      },
      w.woken,
    )
