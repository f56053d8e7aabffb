-- ===== src/Sessions.antt =====
-- src/agent/session_manager.py: the sessions, one JSON file each.
-- A value in a file that has another type than its field is annotated with counts as malformed.
pub mod Values
pub mod Machine
pub mod Decode
pub mod Manager
pub mod Paths
pub mod Roundtrip
pub mod Save
pub mod Table
pub mod Refines
pub mod History
use pearl_ai.Sessions.Values.{
  Json, Items, Members, array, end, item, member, nil, object, text, find, has_only, text_at,
}
use pearl_ai.Python.{Exception}
use pearl_ai.Base.{
  String, List, [], ◌∷◌, Option, none, some, if◌then◌else◌, last_few, length, one_of, ℕ, ◌==◌,
  str_lt, not,
}

pub record SessionMessage : Type 0 where
  pub role : String
  pub content : String
  pub ts : String

pub record SessionRecord : Type 0 where
  pub id : String
  pub title : String
  pub workspace : String
  pub created_at : String
  pub updated_at : String
  pub messages : List SessionMessage
  pub metadata : Members

unfoldable pub message_dict : SessionMessage → Json
message_dict m =
    object (
      member "role" (text m.role) (member "content" (text m.content) (member "ts" (text m.ts) end)))

unfoldable pub message_dicts : List SessionMessage → Items
unfolding message_dict
message_dicts [] = nil
message_dicts (m ∷ ms) = item (message_dict m) (message_dicts ms)

-- `to_dict`
unfoldable pub to_dict : SessionRecord → Members
unfolding message_dicts
to_dict r = member "id" (text r.id) (
    member "title" (text r.title) (
      member "workspace" (text r.workspace) (
        member "created_at" (text r.created_at) (
          member "updated_at" (text r.updated_at) (
            member "messages" (array (message_dicts r.messages))
              (member "metadata" (object r.metadata) end))))))

-- How an operation fails.
pub data Failure : Type 0 where
  session_not_found : (id : String) → Failure
  invalid_session_id : (id : String) → Failure
  -- the file is no JSON text of a session
  malformed : Failure
  not_serializable : Failure
  os_error : Exception → Failure

pub data Result (A : Type 0) : Type 0 where
  returned : A → Result A
  raises : Failure → Result A

abbrev pub or_end : Option Json → Option Members
or_end none = some end
or_end (some (object ms)) = some ms
or_end (some j) = none

infixl 5 ◌>>=◌
abbrev ◌>>=◌ : {A B : Type 0} → Option A → (A → Option B) → Option B
none >>= k = none
some a >>= k = k a

-- `cls(**payload)`, and its messages
unfoldable pub new_record : Members → List SessionMessage → Option SessionRecord
unfolding text_at find has_only
new_record d messages =
    if not
      (has_only ("id" ∷ "title" ∷ "workspace" ∷ "created_at" ∷ "updated_at" ∷ "metadata" ∷ []) d)
    then none
    else do
      id ← text_at "id" d
      title ← text_at "title" d
      workspace ← text_at "workspace" d
      created_at ← text_at "created_at" d
      updated_at ← text_at "updated_at" d
      metadata ← or_end (find "metadata" d)
      some (record {
        id = id;
        title = title;
        workspace = workspace;
        created_at = created_at;
        updated_at = updated_at;
        messages = messages;
        metadata = metadata;
      })

-- `rec.messages[-limit:]`, and everything if there is no limit: `[-0:]` is the whole list, too.
unfoldable pub last_messages : Option ℕ → List SessionMessage → List SessionMessage
last_messages none ms = ms
last_messages (some limit) ms = if limit == 0 then ms else last_few limit ms

pub record ApiMessage : Type 0 where
  pub role : String
  pub content : String

unfoldable pub api_message : SessionMessage → ApiMessage
api_message m = record {
  role = if one_of m.role ("agent" ∷ "summary" ∷ []) then "assistant" else m.role;
  content = m.content;
}

pub record Summary : Type 0 where
  pub id : String
  pub title : String
  pub workspace : String
  pub created_at : String
  pub updated_at : String
  pub message_count : ℕ
  pub metadata : Members

unfoldable pub summary_dict : SessionRecord → Summary
summary_dict r = record {
  id = r.id;
  title = r.title;
  workspace = r.workspace;
  created_at = r.created_at;
  updated_at = r.updated_at;
  message_count = length r.messages;
  metadata = r.metadata;
}

-- `summaries.sort(key=updated_at, reverse=True)`: newest first, and stable.
unfoldable pub insert_summary : Summary → List Summary → List Summary
insert_summary s [] = s ∷ []
insert_summary s (t ∷ ts) =
    let rest = insert_summary s ts in
    if str_lt s.updated_at t.updated_at then t ∷ rest else s ∷ t ∷ ts

unfoldable pub newest_first : List Summary → List Summary
unfolding insert_summary
newest_first [] = []
newest_first (s ∷ ss) = insert_summary s (newest_first ss)
