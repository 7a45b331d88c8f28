-- ===== src/TokenSource/Overrun.antt =====
-- crates/server/src/services/live/twitch/{token_source,throttled_token_source}.rs: ticks while
-- nothing runs, and `add_tokens` at full load.
use minibot_rust.Base.{
  ℕ, zero, suc, ◌+◌, ◌-◌, ◌^◌, ◌<◌, ◌≤◌, min, Bool, true, false, List, [], ◌∷◌, ◌==◌, length, ◌≡◌,
  refl, ap, ◌∙◌, arith,
}
use minibot_rust.TokenSource.{usize_mod, State, new, wake, add_tokens, add_usize, sub_usize}
use minibot_rust.TokenSource.Fairness.{live}

-- The timer of `ThrottledTokenSource`: one token at each tick.
pub ticks : ℕ → (ℕ → Bool) → ℕ → State → State
ticks max alive zero s = s
ticks max alive (suc n) s = (add_tokens max alive 1 (ticks max alive n s)).0

abbrev pub idle : ℕ → State
idle tokens = record { curr_tokens = tokens; curr_running = 0; notifiers = [] }

tick_idle :
    (max tokens : ℕ) (alive : ℕ → Bool)
    → 0 < max
    → tokens + 1 < usize_mod
    → (add_tokens max alive 1 (idle tokens)).0 ≡ idle (tokens + 1)
unfolding add_tokens
tick_idle max tokens alive p h = ground arith

idle-suc : (max n : ℕ) → idle (max + n + 1) ≡ idle (max + suc n)
idle-suc max n = ground arith

-- While nothing runs and nobody waits, a source with a maximum above 0 has, after `n` ticks, `n`
-- tokens more than the maximum, within the machine's range.
pub ticks_uncapped :
    (max n : ℕ) (alive : ℕ → Bool)
    → 0 < max
    → max + n < usize_mod
    → ticks max alive n (new max) ≡ idle (max + n)
unfolding ticks
ticks_uncapped max zero alive p h = unfold new in ground arith
ticks_uncapped max (suc n) alive p h =
    let before = ticks_uncapped max n alive p (omega arith) in
    rw (before, ticks) (tick_idle max (max + n) alive p (omega arith) ∙ idle-suc max n)

-- With more tokens than waiters, every live waiter is woken.
wake_all :
    (alive : ℕ → Bool) (num running : ℕ) (q : List ℕ)
    → length q < num
    → num < usize_mod
    → let w = wake alive num running q in
      (w.woken ≡ live alive q) × (w.waiting ≡ []) × (w.num_tokens + length w.woken ≡ num)
unfolding wake live
wake_all alive num running [] h b = (refl, refl, omega arith)
wake_all alive num running (tx ∷ rest) h b = ground (
  arith,
  wake_all alive (sub_usize num 1) (add_usize running 1) rest,
  wake_all alive num running rest,
)

length-live : (alive : ℕ → Bool) (q : List ℕ) → length (live alive q) ≤ length q
unfolding live
length-live alive [] = omega arith
length-live alive (tx ∷ rest) = ground (arith, length-live alive rest)

wake_overrun :
    (alive : ℕ → Bool) (running tx : ℕ) (rest : List ℕ)
    → alive tx ≡ true
    → length rest < 2 ^ 63
    → let w = wake alive 0 running (tx ∷ rest) in
      (w.woken ≡ live alive (tx ∷ rest)) × (2 ^ 63 ≤ w.num_tokens) × (w.num_tokens < usize_mod)
unfolding wake live
wake_overrun alive running tx rest a b =
    let (woken, waiting, used) =
      wake_all alive (sub_usize 0 1) (add_usize running 1) rest (omega arith) (omega arith) in
    rw a (
      ap (◌∷◌ tx) woken,
      omega (arith, ap (length {A = ℕ}) woken, length-live alive rest, used),
      omega (arith, used),
    )

-- Where the maximum or more run, no token is left, and the first of fewer than 2^63 + 1 waiters is
-- live, adding tokens wakes every live waiter and leaves at least 2^63 tokens, in arithmetic that
-- wraps around.
pub add_tokens_overrun :
    (max num tx : ℕ) (alive : ℕ → Bool) (rest : List ℕ) (s : State)
    → 0 < num
    → max ≤ s.curr_running
    → s.curr_tokens ≡ 0
    → s.notifiers ≡ tx ∷ rest
    → alive tx ≡ true
    → length rest < 2 ^ 63
    → ((add_tokens max alive num s).1 ≡ live alive (tx ∷ rest))
      × (2 ^ 63 ≤ (add_tokens max alive num s).0.curr_tokens)
unfolding add_tokens
add_tokens_overrun max num tx alive rest s p full z q a b =
    let none_fit : min num (max - s.curr_running) ≡ 0 = omega arith in
    let (woken, many, below) = wake_overrun alive s.curr_running tx rest a b in
    let started : (num == 0) ≡ false = ground arith in
    rw (started, z, q, none_fit) (woken, omega (arith, many, below))
