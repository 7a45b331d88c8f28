-- ===== src/IrcRaw/Message/Lines.antt =====
-- crates/irc-raw/src/messages.rs: the bytes of a written `Message`.
use minibot_rust.Base.{
  ℕ, List, [], ◌∷◌, Option, none, some, ◌≡◌, ◌≢◌, ◌⊎◌, inr, subst, true, arith, Bytes, ok,
  bind-eq-ok, Lacks, OkLacks, All, All-append,
}
use minibot_rust.IrcRaw.Tags.{Tags, write_tags}
use minibot_rust.IrcRaw.Tags.RoundTrip.{IsTag, KeysLack, write_tags-Lacks}
use minibot_rust.IrcRaw.Source.{Source, write_source}
use minibot_rust.IrcRaw.Source.RoundTrip.{SourceLacks, write_source-Lacks}
use minibot_rust.IrcRaw.Command.{write_command}
use minibot_rust.IrcRaw.Command.RoundTrip.{write_command-Lacks}
use minibot_rust.IrcRaw.Message.{
  Message, write_tags_part, write_source_part, write_params, write_message,
}
use minibot_rust.IrcRaw.Message.RoundTrip.{IsMessage}

abbrev pub OptSourceLacks : ℕ → Option Source → Type 0
OptSourceLacks b none = Unit
OptSourceLacks b (some s) = SourceLacks b s

-- The byte `b` stands in no part of the message; tag values may hold it, since they are escaped.
pub record MessageLacks (b : ℕ) (m : Message) : Type 0 where
  pub in_keys : KeysLack b m.tags
  pub in_source : OptSourceLacks b m.source
  pub in_params : All (Lacks b) m.params

module _ (b : ℕ) (end_of_line : (b ≡ b'\r') ⊎ (b ≡ b'\n')) where
  write_tags_part-Lacks :
      (m : Tags) {w : Bytes} → All IsTag m → KeysLack b m → write_tags_part m ≡ ok w → Lacks b w
  unfolding write_tags_part
  write_tags_part-Lacks [] i k e = subst (OkLacks b) e tt
  write_tags_part-Lacks (t ∷ m) i k e =
      let (w, written, whole) = bind-eq-ok (write_tags true (t ∷ m)) _ e in
      subst (OkLacks b) whole (
        ground arith,
        All-append (λ x. x ≢ b) w (b' ' ∷ []) (write_tags-Lacks b t m (inr end_of_line) i k written)
            (ground arith, tt),
      )

  write_source_part-Lacks :
      (s : Option Source) {w : Bytes} → OptSourceLacks b s → write_source_part s ≡ ok w → Lacks b w
  unfolding write_source_part
  write_source_part-Lacks none h e = subst (OkLacks b) e tt
  write_source_part-Lacks (some s) h e =
      let (w, written, whole) = bind-eq-ok (write_source s) _ e in
      subst (OkLacks b) whole (
        ground arith,
        All-append (λ x. x ≢ b) w (b' ' ∷ [])
            (write_source-Lacks b (ground arith) (ground arith) (ground arith) s h written)
            (ground arith, tt),
      )

  write_params-Lacks : (ps : List Bytes) → All (Lacks b) ps → Lacks b (write_params ps)
  unfolding write_params
  write_params-Lacks [] h = tt
  write_params-Lacks (last ∷ []) h = (ground arith, h.0)
  write_params-Lacks (p ∷ q ∷ ps) h =
      All-append (λ x. x ≢ b) p _ h.0 (ground arith, write_params-Lacks (q ∷ ps) h.1)

  -- Where `b` is one of the two bytes that end a line, a well-formed message that has no `b` in its
  -- tag keys, its source and its parameters is written without it, whatever its tag values hold.
  pub write_message-Lacks :
      (m : Message) {w : Bytes}
      → IsMessage m
      → MessageLacks b m
      → write_message m ≡ ok w
      → Lacks b w
  unfolding write_message
  write_message-Lacks m i h e =
      let (t, t_written, later) = bind-eq-ok (write_tags_part m.tags) _ e in
      let (s, s_written, whole) = bind-eq-ok (write_source_part m.source) _ later in
      let tags = write_tags_part-Lacks m.tags i.are_tags h.in_keys t_written in
      let source = write_source_part-Lacks m.source h.in_source s_written in
      let command = write_command-Lacks b m.command (inr end_of_line) i.is_command in
      subst (OkLacks b) whole (
        All-append (λ x. x ≢ b) t _ tags
          (All-append (λ x. x ≢ b) s _ source
            (All-append (λ x. x ≢ b) (write_command m.command) _ command
              (ground arith, write_params-Lacks m.params h.in_params))))
