-- ===== src/Pipe.antt =====
-- crates/common/src/future: the loops of `PipeEnd` in pipe.rs, and `pipe` and `try_map_pipe` of
-- mod.rs. The items of a stream are a list. A sink is what it has taken, and how many items its
-- receiver still takes before it is gone. A `FnMut` is a function of its state and the item.
pub mod Reference
pub mod Results
pub mod Cloner
mod Tests
use minibot_rust.Base.{
  ℕ, zero, suc, Bool, true, false, List, [], ◌∷◌, ◌++◌, Option, none, some, if◌then◌else◌,
}

pub data Either (A B : Type 0) : Type 0 where
  left : A → Either A B
  right : B → Either A B

pub record Sink (A : Type 0) : Type 0 where
  pub taken : List A
  pub room : ℕ

put_at : {A : Type 0} → ℕ → List A → A → Option (Sink A)
put_at zero taken a = none
put_at (suc room) taken a = some (record { taken = taken ++ a ∷ []; room = room })

-- `sink.send(item)`: none when the receiver is gone.
unfoldable pub send : {A : Type 0} → Sink A → A → Option (Sink A)
unfolding put_at
send s a = put_at s.room s.taken a

-- `pipe`, the `send_all` of a stream into a sink: whether it went through, and the sink.
unfoldable pub pipe : {A : Type 0} → List A → Sink A → Bool × Sink A
pipe [] sink = (true, sink)
pipe (a ∷ items) sink = elim (send sink a) [ none ↦ (false, sink) | some sink' ↦ pipe items sink' ]

pub data PipeError (E : Type 0) : Type 0 where
  in_stream : E → PipeError E
  in_sink : PipeError E

module _ {S T U E : Type 0} (f : S → T → Either U E × S) where
  -- `try_map_pipe`: its error, if any, and the sink.
  unfoldable pub try_map_pipe : S → List T → Sink U → Option (PipeError E) × Sink U
  try_map_pipe s [] sink = (none, sink)
  try_map_pipe s (item ∷ items) sink = elim ((f s item).0) [
    | right e ↦ (some (in_stream e), sink)
    | left v ↦ elim (send sink v) [
      | none ↦ (some in_sink, sink)
      | some sink' ↦ try_map_pipe ((f s item).1) items sink'
    ]
  ]

module _ {S T U : Type 0} (f : S → T → Option U × S) where
  -- The task of `PipeEnd::end_map`.
  unfoldable pub end_map : S → List T → Sink U → Sink U
  end_map s [] sink = sink
  end_map s (item ∷ items) sink = elim ((f s item).0) [
    | none ↦ sink
    | some v ↦ elim (send sink v) [ none ↦ sink | some sink' ↦ end_map ((f s item).1) items sink' ]
  ]

  -- The task of `PipeEnd::filter_map`.
  unfoldable pub filter_map : S → List T → Sink U → Sink U
  filter_map s [] sink = sink
  filter_map s (item ∷ items) sink = elim ((f s item).0) [
    | none ↦ filter_map ((f s item).1) items sink
    | some v ↦ elim (send sink v) [
      | none ↦ sink
      | some sink' ↦ filter_map ((f s item).1) items sink'
    ]
  ]

-- `PipeEnd::filter`, by the function that it gives to `filter_map`.
unfoldable pub filter : {S T : Type 0} → (S → T → Bool × S) → S → List T → Sink T → Sink T
unfolding filter_map
filter f = filter_map λ s item. ((if (f s item).0 then some item else none), (f s item).1)

module _ {S T A B : Type 0} (f : S → T → Either A B × S) where
  -- The task of `PipeEnd::either_split`: a sink that fails ends the task, and so the other sink.
  unfoldable pub either_split : S → List T → Sink A → Sink B → Sink A × Sink B
  either_split s [] t_sink f_sink = (t_sink, f_sink)
  either_split s (item ∷ items) t_sink f_sink = elim ((f s item).0) [
    | left a ↦ elim (send t_sink a) [
      | none ↦ (t_sink, f_sink)
      | some t_sink' ↦ either_split ((f s item).1) items t_sink' f_sink
    ]
    | right b ↦ elim (send f_sink b) [
      | none ↦ (t_sink, f_sink)
      | some f_sink' ↦ either_split ((f s item).1) items t_sink f_sink'
    ]
  ]

-- The task of `PipeEnd::end_on_error_oneshot`: what goes into the oneshot channel, and the sink.
unfoldable pub end_on_error_oneshot :
    {T E : Type 0} → List (Either T E) → Sink T → Option E × Sink T
end_on_error_oneshot [] sink = (none, sink)
end_on_error_oneshot (left item ∷ items) sink = elim (send sink item) [
  | none ↦ (none, sink)
  | some sink' ↦ end_on_error_oneshot items sink'
]
end_on_error_oneshot (right e ∷ items) sink = (some e, sink)

-- `PipeEnd::end_on_error`: nobody waits for the error.
unfoldable pub end_on_error : {T E : Type 0} → List (Either T E) → Sink T → Sink T
unfolding end_on_error_oneshot
end_on_error items sink = (end_on_error_oneshot items sink).1
