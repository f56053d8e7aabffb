-- ===== src/Sessions/Roundtrip.antt =====
-- from_dict undoes to_dict.
use pearl_ai.Sessions.Machine.{Host}
use pearl_ai.Sessions.Values.{text_at, find, without, has_only, object}
use pearl_ai.Sessions.Decode.{
  State, from_dict, from_messages, new_message, read_message, read_messages,
}
use pearl_ai.Sessions.{
  SessionMessage, SessionRecord, message_dict, message_dicts, to_dict, new_record, returned,
}
use pearl_ai.Base.{List, [], ◌∷◌, ◌≡◌, refl}

module _ (host : Host) where
  read_messages-dicts :
      (ms : List SessionMessage) (st : State host)
      → read_messages host (message_dicts ms) st ≡ (returned ms, st)
  unfolding read_messages message_dicts read_message message_dict new_message text_at find has_only
  read_messages-dicts [] st = refl
  read_messages-dicts (m ∷ ms) st = rw (read_messages-dicts ms st) refl

  -- Reading a session back from the dictionary that it is saved as gives the session, and takes no time
  -- stamp.
  pub from_dict-to_dict :
      (r : SessionRecord) (st : State host)
      → from_dict host (object (to_dict r)) st ≡ (returned r, st)
  unfolding from_dict to_dict from_messages new_record text_at find without has_only
  from_dict-to_dict r st = rw (read_messages-dicts r.messages st) refl
