-- ===== src/IrcRpc/Calls.antt =====
-- crates/irc/src/rpc.rs: a call from its start to its result.
use minibot_rust.Base.{
  ◌≡◌, refl, ◌∙◌, Bool, true, false, List, [], ◌∷◌, ◌++◌, append-nil, append_assoc, none, some, All,
  Outcome, ok, err, panic, if◌then◌else◌, inl, inr, ◌⊎◌,
}
use minibot_rust.IrcRaw.Message.{Message}
use minibot_rust.IrcClient.{Incoming, message, failed}
use minibot_rust.IrcRpc.{
  FilterResult, next, skip, end, call_error, rpc_cancelled_error, RpcCall, Pending, Connection,
  Reply, responses, filter_failed, handle_message, run_handler, register_call, start_call,
  call_result, finish_call, call_during,
}

abbrev pub is_next : {E : Type 0} → Outcome E FilterResult → Bool
is_next (ok next) = true
is_next _ = false

module _ {Out E : Type 0} where
  -- The messages that a call takes for its own, and the others.
  abbrev pub kept : RpcCall Out E → List Message → List Message
  kept call [] = []
  kept call (m ∷ ms) = (if is_next (call.msg_filter m) then m ∷ [] else []) ++ kept call ms

  abbrev pub skipped : RpcCall Out E → List Message → List Message
  skipped call [] = []
  skipped call (m ∷ ms) = (if is_next (call.msg_filter m) then [] else m ∷ []) ++ skipped call ms

  -- A message that leaves the call pending.
  abbrev pub Passes : RpcCall Out E → Message → Type 0
  Passes call m = (call.msg_filter m ≡ ok next) ⊎ (call.msg_filter m ≡ ok skip)

  abbrev pub pending : RpcCall Out E → List Message → Pending Out E
  pending call msgs = record { call = call; response_messages = msgs }

  -- The handler takes every message.
  abbrev pub Handles : Connection Out E → Type 0
  Handles c = (before : List Message) (m : Message) → c.handler before m ≡ none

abbrev pub stream : List Message → List Incoming → List Incoming
stream [] rest = rest
stream (m ∷ ms) rest = message m ∷ stream ms rest

-- The stream ends, or gives an error.
abbrev pub Stops : List Incoming → Type 0
Stops [] = Unit
Stops (failed e ∷ rest) = Unit
Stops (message m ∷ rest) = ⊥

module _ {Out E : Type 0} (call : RpcCall Out E) where
  -- A connection with the call pending, and some responses.
  abbrev pub busy : List Message → Connection Out E → Connection Out E
  busy msgs c = record c { stream_state = some (pending call msgs) }

  run_handler-next :
      (msgs : List Message) (m : Message) (rest : List Incoming) (c : Connection Out E)
      → call.msg_filter m ≡ ok next
      → run_handler (message m ∷ rest) (busy msgs c) ≡ run_handler rest (busy (msgs ++ m ∷ []) c)
  unfolding handle_message run_handler
  run_handler-next msgs m rest c f = rw (f, handle_message, run_handler) refl

  run_handler-skip :
      (msgs : List Message) (m : Message) (rest : List Incoming) (c : Connection Out E)
      → call.msg_filter m ≡ ok skip
      → c.handler c.handled m ≡ none
      → run_handler (message m ∷ rest) (busy msgs c)
        ≡ run_handler rest (busy msgs (record c { handled = c.handled ++ m ∷ [] }))
  unfolding handle_message run_handler
  run_handler-skip msgs m rest c f h = rw (f, h, handle_message, run_handler) refl

  -- Over messages that leave the call pending, the task takes the call's own messages into its
  -- responses and gives the others to the handler, each in order.
  pub run_handler-pending :
      (ms : List Message) (rest : List Incoming) (msgs : List Message) (c : Connection Out E)
      → All (Passes call) ms
      → Handles c
      → run_handler (stream ms rest) (busy msgs c)
        ≡ run_handler rest
            (busy (msgs ++ kept call ms) (record c { handled = c.handled ++ skipped call ms }))
  run_handler-pending [] rest msgs c p h = simp append-nil
  run_handler-pending (m ∷ ms) rest msgs c (inl own, p) h =
      run_handler-next msgs m (stream ms rest) c own
      ∙ run_handler-pending ms rest (msgs ++ m ∷ []) c p h
      ∙ rw own (simp append_assoc)
  run_handler-pending (m ∷ ms) rest msgs c (inr other, p) h =
      run_handler-skip msgs m (stream ms rest) c other (h c.handled m)
      ∙ run_handler-pending ms rest msgs (record c { handled = c.handled ++ m ∷ [] }) p h
      ∙ rw other (simp append_assoc)

  run_handler-end :
      (msgs : List Message) (m : Message) (rest : List Incoming) (c : Connection Out E)
      → call.msg_filter m ≡ ok end
      → run_handler (message m ∷ rest) (busy msgs c)
        ≡ run_handler rest
            (record c { stream_state = none; reply = some (responses (msgs ++ m ∷ [])) })
  unfolding handle_message run_handler
  run_handler-end msgs m rest c f = rw (f, handle_message, run_handler) refl

  run_handler-fails :
      (msgs : List Message) (m : Message) (rest : List Incoming) (c : Connection Out E) (e : E)
      → call.msg_filter m ≡ err e
      → run_handler (message m ∷ rest) (busy msgs c)
        ≡ run_handler rest (record c { stream_state = none; reply = some (filter_failed e) })
  unfolding handle_message run_handler
  run_handler-fails msgs m rest c e f = rw (f, handle_message, run_handler) refl

  pub start_call-busy :
      (c : Connection Out E)
      → c.stream_state ≡ none
      → start_call call true c ≡ (ok tt, busy [] (record c { reply = none }))
  unfolding start_call register_call
  start_call-busy c s = rw (s, register_call, start_call) refl

  start_call-unsent :
      (c : Connection Out E)
      → c.stream_state ≡ none
      → start_call call false c ≡ (err rpc_cancelled_error, busy [] (record c { reply = none }))
  unfolding start_call register_call
  start_call-unsent c s = rw (s, register_call, start_call) refl

  -- The connection behind a call that has come to its end.
  abbrev pub idle : Reply E → List Message → Connection Out E → Connection Out E
  idle reply ms c = record c {
    stream_state = none;
    reply = some reply;
    handled = c.handled ++ skipped call ms;
  }

  -- A call on a connection with none pending, whose handler takes every message without an error, when
  -- the messages of the call are all sent: over messages that its
  -- filter keeps or skips, to one that ends it, it gives what it makes of the kept messages and the
  -- last one, in order; the skipped ones have gone to the handler, in order, and no call is pending.
  pub call_during-completes :
      (ms : List Message) (m : Message) (c : Connection Out E)
      → c.stream_state ≡ none
      → Handles c
      → All (Passes call) ms
      → call.msg_filter m ≡ ok end
      → call_during call true (stream ms (message m ∷ [])) c ≡ (
        some (call_result (call.recv_messages (kept call ms ++ m ∷ []))),
        idle (responses (kept call ms ++ m ∷ [])) ms c,
      )
  unfolding call_during run_handler finish_call
  call_during-completes ms m c s h p f =
      let c1 : Connection Out E = record c { reply = none } in
      rw (start_call-busy c s) (
        rw (run_handler-pending ms (message m ∷ []) [] c1 p h) (
          rw
            (run_handler-end (kept call ms) m []
              (record c1 { handled = c.handled ++ skipped call ms }) f)
            refl))

  -- On such a connection, when the filter fails at a message, the call gives that error, the messages it has kept are
  -- dropped, and no call is pending.
  pub call_during-fails :
      (ms : List Message) (m : Message) (e : E) (c : Connection Out E)
      → c.stream_state ≡ none
      → Handles c
      → All (Passes call) ms
      → call.msg_filter m ≡ err e
      → call_during call true (stream ms (message m ∷ [])) c
        ≡ (some (err (call_error e)), idle (filter_failed e) ms c)
  unfolding call_during run_handler finish_call
  call_during-fails ms m e c s h p f =
      let c1 : Connection Out E = record c { reply = none } in
      rw (start_call-busy c s) (
        rw (run_handler-pending ms (message m ∷ []) [] c1 p h) (
          rw
            (run_handler-fails (kept call ms) m []
              (record c1 { handled = c.handled ++ skipped call ms }) e f)
            refl))

  -- On such a connection, when the stream ends, or gives an error, before a message ends the call, the task is over and
  -- the call gets no reply: it waits for ever, and is still pending.
  pub call_during-hangs :
      (ms : List Message) (rest : List Incoming) (c : Connection Out E)
      → c.stream_state ≡ none
      → Handles c
      → All (Passes call) ms
      → Stops rest
      → call_during call true (stream ms rest) c ≡ (
        none,
        busy (kept call ms) (record c { reply = none; handled = c.handled ++ skipped call ms }),
      )
  unfolding call_during run_handler finish_call
  call_during-hangs ms [] c s h p stops =
      rw (start_call-busy c s)
        (rw (run_handler-pending ms [] [] (record c { reply = none }) p h) refl)
  call_during-hangs ms (failed e ∷ rest) c s h p stops =
      rw (start_call-busy c s)
        (rw (run_handler-pending ms (failed e ∷ rest) [] (record c { reply = none }) p h) refl)
  call_during-hangs ms (message m ∷ rest) c s h p stops = absurd stops

  -- A call whose messages the sink does not take is cancelled, but stays pending: the next call on
  -- the connection panics, when no message comes between the two.
  pub call_during-stuck :
      (next_call : RpcCall Out E) (sent : Bool) (first second : List Incoming)
      (c : Connection Out E)
      → c.stream_state ≡ none
      → ((call_during call false first c).0 ≡ some (err rpc_cancelled_error))
        × ((call_during next_call sent second (call_during call false first c).1).0 ≡ some panic)
  unfolding call_during start_call register_call
  call_during-stuck next_call sent first second c s = rw (start_call-unsent c s) (refl, refl)
