-- ===== src/WebSocket/Upgrade.antt =====
-- crates/server/src/net/ws.rs: the answer to a request for a web socket.
use minibot_rust.Base.{
  ℕ, Bool, false, List, [], ◌∷◌, ◌++◌, Option, none, some, Outcome, ok, Bytes, codes, eq_bytes,
  ok_or, ◌>>=◌, if◌then◌else◌,
}

-- A header map: names in lower case, as hyper keeps them, and values.
abbrev pub HeaderMap : Type 0
HeaderMap = List (Bytes × Bytes)

unfoldable pub get : HeaderMap → Bytes → Option Bytes
get [] name = none
get (h ∷ headers) name = let rest = get headers name in if eq_bytes h.0 name then some h.1 else rest

pub data Error : Type 0 where
  no_key : Error

pub record Response : Type 0 where
  pub status : ℕ
  pub headers : HeaderMap

unfoldable pub requested : HeaderMap → Bool
unfolding get
requested headers = elim (get headers (codes "upgrade")) [
  | none ↦ false
  | some value ↦ eq_bytes value (codes "websocket")
]

-- `sha1` and `base64` are of other packages.
module _ (sha1 base64 : Bytes → Bytes) where
  unfoldable pub accept_key : Bytes → Bytes
  accept_key key = base64 (sha1 (key ++ codes "258EAFA5-E914-47DA-95CA-C5AB0DC85B11"))

  unfoldable pub response : HeaderMap → Outcome Error Response
  unfolding get accept_key
  response headers = do
    key ← ok_or (get headers (codes "sec-websocket-key")) no_key
    ok (record {
      status = 101;
      headers =
          (codes "upgrade", codes "websocket")
          ∷ (codes "connection", codes "upgrade")
          ∷ (codes "sec-websocket-accept", accept_key key)
          ∷ [];
    })

unfoldable pub upgrade_required_response : Response
upgrade_required_response = record {
  status = 426;
  headers = (codes "upgrade", codes "websocket") ∷ [];
}
