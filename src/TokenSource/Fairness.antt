-- ===== src/TokenSource/Fairness.antt =====
-- crates/server/src/services/live/twitch/token_source.rs: the tokens and the waiters under
-- `add_tokens`.
use minibot_rust.Base.{
  ℕ, ◌+◌, ◌-◌, ◌<◌, min, Bool, List, [], ◌∷◌, ◌++◌, if◌then◌else◌, length, ◌≡◌, refl, ◌⊎◌, inr,
  arith,
}
use minibot_rust.TokenSource.{
  usize_mod, State, new, take_token, wake, add_tokens, add_usize, sub_usize,
}

-- The waiters whose receivers exist, in the order of the queue.
unfoldable pub live : (ℕ → Bool) → List ℕ → List ℕ
live alive [] = []
live alive (tx ∷ rest) = let others = live alive rest in if alive tx then tx ∷ others else others

wake-live :
    (alive : ℕ → Bool) (num running : ℕ) (q : List ℕ)
    → (wake alive num running q).woken ++ live alive (wake alive num running q).waiting
      ≡ live alive q
unfolding wake live
wake-live alive num running [] = refl
wake-live alive num running (tx ∷ rest) = ground (
  arith,
  wake-live alive (sub_usize num 1) (add_usize running 1) rest,
  wake-live alive num running rest,
)

-- When tokens are added, the waiters that are woken and then the live ones that still wait are
-- together the live waiters from before, in the order of the queue.
pub add_tokens_in_order :
    (max num : ℕ) (alive : ℕ → Bool) (s : State)
    → (add_tokens max alive num s).1 ++ live alive (add_tokens max alive num s).0.notifiers
      ≡ live alive s.notifiers
unfolding add_tokens
add_tokens_in_order max num alive s =
    ground (arith, wake-live alive (min num (max - s.curr_running)) s.curr_running s.notifiers)

-- Nobody waits while there are tokens.
abbrev pub IsFair : State → Type 0
IsFair s = (s.curr_tokens ≡ 0) ⊎ (s.notifiers ≡ [])

wake-IsFair :
    (alive : ℕ → Bool) (num running : ℕ) (q : List ℕ)
    → ((wake alive num running q).num_tokens ≡ 0) ⊎ ((wake alive num running q).waiting ≡ [])
unfolding wake
wake-IsFair alive num running [] = inr refl
wake-IsFair alive num running (tx ∷ rest) = ground (
  arith,
  wake-IsFair alive (sub_usize num 1) (add_usize running 1) rest,
  wake-IsFair alive num running rest,
)

wake-nil : (alive : ℕ → Bool) (num running : ℕ) → (wake alive num running []).waiting ≡ []
unfolding wake
wake-nil alive num running = refl

pub new-IsFair : (max : ℕ) → IsFair (new max)
unfolding new
new-IsFair max = inr refl

-- Taking a token keeps it so.
pub take_token-IsFair : (id : ℕ) (s : State) → IsFair s → IsFair (take_token id s).0
unfolding take_token
take_token-IsFair id s h = ground arith

-- When nobody waits while there are tokens, that stays so when tokens are added.
pub add_tokens-IsFair :
    (max num : ℕ) (alive : ℕ → Bool) (s : State) → IsFair s → IsFair (add_tokens max alive num s).0
unfolding add_tokens
add_tokens-IsFair max num alive s h = ground (
  arith,
  wake-IsFair alive (min num (max - s.curr_running)) s.curr_running s.notifiers,
  wake-nil alive (min num (max - s.curr_running)) s.curr_running,
)

wake_conserves :
    (alive : ℕ → Bool) (num running : ℕ) (q : List ℕ)
    → 0 < num
    → running + num < usize_mod
    → let w = wake alive num running q in
      (w.num_tokens + w.running ≡ num + running) × (w.running ≡ running + length w.woken)
unfolding wake
wake_conserves alive num running [] p h = (refl, omega arith)
wake_conserves alive num running (tx ∷ rest) p h = ground (
  arith,
  wake_conserves alive (sub_usize num 1) (add_usize running 1) rest,
  wake_conserves alive num running rest,
)

-- When tokens are added while fewer than the maximum run, and the numbers are within the machine's
-- range, the tokens and the running together grow by the number added or by what is free below the
-- maximum, whichever is less, and the running grow by the number of waiters that are woken.
pub add_tokens_conserves :
    (max num : ℕ) (alive : ℕ → Bool) (s : State)
    → 0 < num
    → s.curr_running < max
    → s.curr_tokens + max < usize_mod
    → let (t, woken) = add_tokens max alive num s in
      (t.curr_tokens + t.curr_running
        ≡ s.curr_tokens + s.curr_running + min num (max - s.curr_running))
      × (t.curr_running ≡ s.curr_running + length woken)
unfolding add_tokens
add_tokens_conserves max num alive s p r h =
    ground (arith, wake_conserves alive (min num (max - s.curr_running)) s.curr_running s.notifiers)
