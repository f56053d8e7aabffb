-- ===== src/Sessions/Refines.antt =====
-- The operations against the table of the sessions.
pub mod Steps
pub mod Whole
use pearl_ai.Python.{Exception}
use pearl_ai.Sessions.Machine.{Host}
use pearl_ai.Sessions.Decode.{State, Action, pure, ◌>>=◌}
use pearl_ai.Sessions.Values.{Members, merge}
use pearl_ai.Sessions.Manager.{
  create_session, delete_session, rename_session, append_message, update_metadata, safe_chars,
}
use pearl_ai.Sessions.Save.{Fault}
use pearl_ai.Sessions.Table.{Table, put_session, Represents}
use pearl_ai.Sessions.{
  SessionRecord, Result, returned, raises, Failure, session_not_found, invalid_session_id, os_error,
}
use pearl_ai.Base.{String, ◌≡◌, ◌≢◌, Option, [], false, none, some, str_eq, str_lt, true, ◌++◌, ◌∷◌}

pub data Op : Type 0 where
  create : (workspace title : String) → (metadata : Members) → Op
  delete : (id : String) → Op
  rename : (id title : String) → Op
  append : (id role content : String) → Op
  update : (id : String) → (metadata : Members) → Op

abbrev pub Later : String → String → Type 0
Later a b = str_lt a b ≡ true

-- What an operation does to the table, between the time stamps `from` and `to`.
abbrev pub Effect : Op → (from to : String) → Table → Table → Type 0
Effect (create workspace title metadata) from to t t' =
    (sid : String) × (shown : String) × Later from to
    × (title ≢ "" → shown ≡ title)
    × (t'
        ≡ put_session sid
            (some (record {
              id = sid;
              title = shown;
              workspace = workspace;
              created_at = to;
              updated_at = to;
              messages = [];
              metadata = metadata;
            }))
            t)
Effect (delete id) from to t t' = (to ≡ from) × (t' ≡ put_session id none t)
Effect (rename id title) from to t t' =
    (r : SessionRecord) × (t id ≡ some r)
    × Later from to
    × (t' ≡ put_session id (some (record r { title = title; updated_at = to })) t)
Effect (append id role content) from to t t' =
    (r : SessionRecord) × (ts : String) × (t id ≡ some r)
    × Later from ts
    × Later ts to
    × (t'
        ≡ put_session id
            (some (record r {
              messages = r.messages ++ record { role = role; content = content; ts = ts } ∷ [];
              updated_at = to;
            }))
            t)
Effect (update id metadata) from to t t' =
    (r : SessionRecord) × (t id ≡ some r)
    × Later from to
    × (t'
        ≡ put_session id (some (record r { metadata = merge r.metadata metadata; updated_at = to }))
            t)

-- The session that an operation needs.
abbrev pub needs : Op → Option String
needs (create workspace title metadata) = none
needs (delete id) = none
needs (rename id title) = some id
needs (append id role content) = some id
needs (update id metadata) = some id

module _ (host : Host) where
  unfoldable pub perform : Op → Action host (Unit {0})
  unfolding create_session delete_session rename_session append_message update_metadata
  perform (create workspace title metadata) =
      create_session host workspace title metadata >>= λ sid. pure tt
  perform (delete id) = delete_session host id
  perform (rename id title) = rename_session host id title
  perform (append id role content) = append_message host id role content
  perform (update id metadata) = update_metadata host id metadata

  -- Why an operation fails.
  pub data Refusal (op : Op) (t : Table) (f : Failure) : Type 0 where
    unknown :
        (id : String) → needs op ≡ some id → t id ≡ none → f ≡ session_not_found id → Refusal op t f
    bad_id :
        (id : String)
        → str_eq (safe_chars host id) id ≡ false
        → f ≡ invalid_session_id id
        → Refusal op t f
    fault : (id : String) → (content : Option String) → Fault host id content f → Refusal op t f
    failed_unlink :
        (p : String) (w : host.fs.World) (x : Exception)
        → (host.fs.unlink p w).0 ≡ some x
        → f ≡ os_error x
        → Refusal op t f

  -- How an operation ends, against the table.
  pub data Refines (op : Op) (st : State host) (t : Table) (res : Result (Unit {0}) × State host)
      : Type 0 where
    refused :
        (f : Failure)
        → res.0 ≡ raises f
        → Refusal op t f
        → Represents host res.1 t
        → Refines op st t res
    effected :
        (t' : Table)
        → res.0 ≡ returned tt
        → Effect op st.last_stamp res.1.last_stamp t t'
        → Represents host res.1 t'
        → Refines op st t res
