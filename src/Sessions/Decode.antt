-- ===== src/Sessions/Decode.antt =====
-- SessionRecord.from_dict: reading a session back. A message without a time stamp gets the one of the
-- call, so that decoding is an action on the state.
use pearl_ai.Sessions.Machine.{Host}
use pearl_ai.Sessions.Values.{
  Json, Items, Members, array, item, nil, object, text, text_at, find, without, has_only,
}
use pearl_ai.Sessions.{
  SessionMessage, SessionRecord, Result, returned, raises, malformed, new_record,
}
use pearl_ai.Base.{String, Bool, true, List, [], ◌∷◌, Option, none, some, if◌then◌else◌, str_lt}

pub record State (host : Host) : Type 0 where
  -- `_last_stamp`
  pub last_stamp : String
  pub world : host.fs.World

-- An operation: it meets a state, and leaves another one whether it fails or not.
abbrev pub Action : Host → Type 0 → Type 0
Action host A = State host → Result A × State host

module _ {host : Host} {A : Type 0} where
  abbrev pub pure : A → Action host A
  pure a st = (returned a, st)

  abbrev pub continue :
      {B : Type 0} → (A → Action host B) → Result A × State host → Result B × State host
  continue k (returned a, st) = k a st
  continue k (raises f, st) = (raises f, st)

module _ {host : Host} {A B : Type 0} where
  infixl 5 ◌>>=◌
  abbrev pub ◌>>=◌ : Action host A → (A → Action host B) → Action host B
  m >>= k = λ st. continue k (m st)

module _ (host : Host) where
  -- `_now`
  unfoldable pub now : Action host String
  now st =
      let (stamp, w) = host.read_clock st.world in
      let fresh = if str_lt st.last_stamp stamp then stamp else host.later st.last_stamp in
      (returned fresh, record { last_stamp = fresh; world = w })

  -- `SessionMessage(**m)` from its three arguments, and whether it has no other one.
  unfoldable pub new_message :
      Option String → Option String → Option Json → Bool → Action host SessionMessage
  unfolding now
  new_message (some role) (some content) (some (text ts)) true =
      pure (record { role = role; content = content; ts = ts })
  new_message (some role) (some content) none true = do
    ts ← now
    pure (record { role = role; content = content; ts = ts })
  new_message role content ts known = λ st. (raises malformed, st)

  unfoldable pub read_message : Json → Action host SessionMessage
  unfolding new_message text_at find has_only
  read_message (object ms) =
      new_message (text_at "role" ms) (text_at "content" ms) (find "ts" ms)
        (has_only ("role" ∷ "content" ∷ "ts" ∷ []) ms)
  read_message j = λ st. (raises malformed, st)

  unfoldable pub read_messages : Items → Action host (List SessionMessage)
  unfolding read_message
  read_messages nil = pure []
  read_messages (item j js) = do m ← read_message j; ms ← read_messages js; pure (m ∷ ms)

  abbrev pub made : Option SessionRecord → Action host SessionRecord
  made none = λ st. (raises malformed, st)
  made (some r) = pure r

  unfoldable pub from_messages : Members → Option Json → Action host SessionRecord
  unfolding read_messages new_record
  from_messages payload none = made (new_record payload [])
  from_messages payload (some (array js)) = do ms ← read_messages js; made (new_record payload ms)
  from_messages payload (some j) = λ st. (raises malformed, st)

  -- `from_dict`
  unfoldable pub from_dict : Json → Action host SessionRecord
  unfolding from_messages find without
  from_dict (object d) = from_messages (without "messages" d) (find "messages" d)
  from_dict j = λ st. (raises malformed, st)
