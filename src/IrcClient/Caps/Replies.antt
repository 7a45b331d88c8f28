-- ===== src/IrcClient/Caps/Replies.antt =====
-- crates/irc/src/client.rs: which replies to CAP the client accepts, and what it reads from them.
use minibot_rust.Base.{
  suc, ◌≡◌, refl, sym, ◌∙◌, subst, Bool, true, false, List, [], ◌∷◌, ◌++◌, append_assoc, eq_bytes,
  eq_bytes_iff, eq_bytes_refl, Bytes, length, ok, codes, Bool-cases, inl, inr, arith,
}
use minibot_rust.IrcRaw.Message.{Message, has_named_command}
use minibot_rust.ByteString.Words.{words, collect-words}
use minibot_rust.IrcClient.{ClientResult, Incoming, message, failed}
use minibot_rust.IrcClient.Caps.{split_spaces, read_cap_params, read_cap, read_caps}

-- The replies at the head of a stream: any number that name the command and the word, with a list
-- of caps, then one with a star in front. The caps are those of all the lists, in order.
pub data Lists (verb : Bytes) : List Incoming → List Bytes → List Incoming → Type 0 where
  last :
      (m : Message) (text : Bytes) (rest : List Incoming)
      → has_named_command m (codes "CAP") ≡ true
      → m.params ≡ codes "*" ∷ verb ∷ text ∷ []
      → Lists verb (message m ∷ rest) (words text) rest
  more :
      (m : Message) (text : Bytes) {later : List Incoming} {caps : List Bytes}
      {rest : List Incoming}
      → has_named_command m (codes "CAP") ≡ true
      → m.params ≡ verb ∷ text ∷ []
      → Lists verb later caps rest
      → Lists verb (message m ∷ later) (words text ++ caps) rest

split_spaces-words : (text : Bytes) → split_spaces text ≡ ok (words text)
unfolding split_spaces
split_spaces-words text =
    rw (collect-words (suc (length text)) text (omega arith), split_spaces) refl

read_cap-last :
    (verb text : Bytes) (m : Message)
    → has_named_command m (codes "CAP") ≡ true
    → m.params ≡ codes "*" ∷ verb ∷ text ∷ []
    → read_cap verb m ≡ ok (true, words text)
unfolding read_cap read_cap_params
read_cap-last verb text m named e =
    rw (named, e, eq_bytes_refl verb, split_spaces-words text) (unfold eq_bytes in refl)

read_cap-more :
    (verb text : Bytes) (m : Message)
    → has_named_command m (codes "CAP") ≡ true
    → m.params ≡ verb ∷ text ∷ []
    → read_cap verb m ≡ ok (false, words text)
unfolding read_cap read_cap_params
read_cap-more verb text m named e = rw (named, e, eq_bytes_refl verb, split_spaces-words text) refl

-- What an accepted reply is like, by whether it is the last.
abbrev Accepted : Bytes → List Bytes → Bool → List Bytes → Type 0
Accepted verb params true ws =
    (text : Bytes) × (params ≡ codes "*" ∷ verb ∷ text ∷ []) × (ws ≡ words text)
Accepted verb params false ws = (text : Bytes) × (params ≡ verb ∷ text ∷ []) × (ws ≡ words text)

read_cap_params-Accepted :
    (verb : Bytes) (params : List Bytes) (b : Bool) (ws : List Bytes)
    → read_cap_params verb params ≡ ok (b, ws)
    → Accepted verb params b ws
unfolding read_cap_params
read_cap_params-Accepted verb (a ∷ text ∷ []) true ws e = ground (arith, e, split_spaces-words text)
read_cap_params-Accepted verb (a ∷ text ∷ []) false ws e =
    (text, ground (arith, e, eq_bytes_iff a verb), ground (arith, e, split_spaces-words text))
read_cap_params-Accepted verb (a ∷ c ∷ text ∷ []) true ws e = (
  text,
  ground (arith, e, eq_bytes_iff a (codes "*"), eq_bytes_iff c verb),
  ground (arith, e, split_spaces-words text),
)
read_cap_params-Accepted verb (a ∷ c ∷ text ∷ []) false ws e =
    ground (arith, e, split_spaces-words text)
read_cap_params-Accepted verb _ b ws e = cc

pub read_caps-Lists :
    (verb : Bytes) (sofar : List Bytes) {incoming : List Incoming} {caps : List Bytes}
    {rest : List Incoming}
    → Lists verb incoming caps rest
    → read_caps verb sofar incoming ≡ (ok (sofar ++ caps), rest)
unfolding read_caps
read_caps-Lists verb sofar (last m text rest named e) =
    rw (read_cap-last verb text m named e, read_caps) refl
read_caps-Lists verb sofar (more m text named e l) =
    rw (read_cap-more verb text m named e, read_caps)
      (read_caps-Lists verb (sofar ++ words text) l ∙ simp append_assoc)

read_cap-Accepted :
    (verb : Bytes) (m : Message) (b : Bool) (ws : List Bytes)
    → read_cap verb m ≡ ok (b, ws)
    → (has_named_command m (codes "CAP") ≡ true) × Accepted verb m.params b ws
unfolding read_cap
read_cap-Accepted verb m b ws e = elim (Bool-cases (has_named_command m (codes "CAP"))) [
  | inl named ↦ (named, read_cap_params-Accepted verb m.params b ws (rw named at e))
  | inr other ↦ absurd (let bad = rw other at e in cc)
]

-- What the loop read, at a stream that it went through.
abbrev pub Read : Bytes → List Bytes → List Incoming → List Bytes → List Incoming → Type 0
Read verb sofar incoming result rest =
    (caps : List Bytes) × Lists verb incoming caps rest × (result ≡ sofar ++ caps)

Lists-last :
    (verb : Bytes) (m : Message) (rest : List Incoming) (ws : List Bytes)
    → (has_named_command m (codes "CAP") ≡ true) × Accepted verb m.params true ws
    → Lists verb (message m ∷ rest) ws rest
Lists-last verb m rest ws (named, (text, shape, same)) =
    subst (λ w. Lists verb (message m ∷ rest) w rest) (sym same) (last m text rest named shape)

Read-more :
    (verb : Bytes) (m : Message) (sofar ws : List Bytes) (later : List Incoming)
    (result : List Bytes) (rest : List Incoming)
    → (has_named_command m (codes "CAP") ≡ true) × Accepted verb m.params false ws
    → Read verb (sofar ++ ws) later result rest
    → Read verb sofar (message m ∷ later) result rest
Read-more verb m sofar ws later result rest (named, (text, shape, same)) (caps, l, e) =
    (words text ++ caps, more m text named shape l, rw (e, same) (simp append_assoc))

read_caps-Read_next :
    (verb : Bytes) (sofar : List Bytes) (m : Message) (later : List Incoming) (result : List Bytes)
    (rest : List Incoming) (r : ClientResult (Bool × List Bytes))
    → ((ws : List Bytes)
        → read_caps verb (sofar ++ ws) later ≡ (ok result, rest)
        → Read verb (sofar ++ ws) later result rest)
    → read_cap verb m ≡ r
    → read_caps verb sofar (message m ∷ later) ≡ (ok result, rest)
    → Read verb sofar (message m ∷ later) result rest
unfolding read_caps
read_caps-Read_next verb sofar m later result rest (ok (true, ws)) ih c e =
    let e' = rw (c, read_caps) at e in
    let q : (sofar ++ ws ≡ result) × (later ≡ rest) = ground arith in
    (
      ws,
      subst (λ r. Lists verb (message m ∷ later) ws r) q.1
          (Lists-last verb m later ws (read_cap-Accepted verb m true ws c)),
      sym q.0,
    )
read_caps-Read_next verb sofar m later result rest (ok (false, ws)) ih c e =
    let e' = rw (c, read_caps) at e in
    Read-more verb m sofar ws later result rest (read_cap-Accepted verb m false ws c) (ih ws e')
read_caps-Read_next verb sofar m later result rest _ ih c e = let e' = rw (c, read_caps) at e in cc

pub read_caps-Read :
    (verb : Bytes) (sofar : List Bytes) (incoming : List Incoming) (result : List Bytes)
    (rest : List Incoming)
    → read_caps verb sofar incoming ≡ (ok result, rest)
    → Read verb sofar incoming result rest
unfolding read_caps
read_caps-Read verb sofar [] result rest e = cc
read_caps-Read verb sofar (failed x ∷ later) result rest e = cc
read_caps-Read verb sofar (message m ∷ later) result rest e =
    read_caps-Read_next verb sofar m later result rest (read_cap verb m)
      (λ ws. read_caps-Read verb (sofar ++ ws) later result rest) refl e
