-- ===== src/Sessions/Manager.antt =====
-- The operations of SessionManager. A path is the name of a file in the directory of the sessions.
use pearl_ai.Sessions.Machine.{Host}
use pearl_ai.Sessions.Values.{Json, Members, merge}
use pearl_ai.Sessions.Decode.{State, Action, pure, from_dict, now, ◌>>=◌}
use pearl_ai.Sessions.{
  SessionRecord, Result, returned, raises, malformed, Failure, invalid_session_id, not_serializable,
  os_error, session_not_found, to_dict, ApiMessage, Summary, api_message, last_messages,
  newest_first, summary_dict,
}
use pearl_ai.Changes.Files.{FileState, absent, holds, unreadable}
use pearl_ai.Python.{Exception, plain}
use Prim.Native.Char.{code}
use Prim.Native.String
use pearl_ai.Base.{
  String, Bool, true, false, [], ◌∷◌, Option, none, some, if◌then◌else◌, str_eq, ◌==◌, ◌||◌, List,
  map, take_text, text_of, ℕ, ◌++◌,
}

abbrev pub fails : {host : Host} {A : Type 0} → Failure → Action host A
fails f st = (raises f, st)

-- `path.exists()`
abbrev pub is_there : FileState → Bool
is_there absent = false
is_there (holds c) = true
is_there (unreadable x) = true

abbrev pub session_path : String → String
session_path id = String.◌++◌ id ".json"

module _ (host : Host) where
  -- `"".join(c for c in session_id if c.isalnum() or c == "-")`
  unfoldable pub safe_chars : String → String
  safe_chars String.[] = String.[]
  safe_chars (String.◌∷◌ c s) =
      let rest = safe_chars s in
      if host.is_alnum (code c) || code c == 45 then String.◌∷◌ c rest else rest

  -- `_path`
  unfoldable pub path_of : String → Action host String
  unfolding safe_chars
  path_of id =
      if str_eq (safe_chars id) id then pure (session_path id) else fails (invalid_session_id id)

  -- The name of the file that a session is written to before it takes its place.
  abbrev pub temporary : String → String
  temporary path = String.◌++◌ path (String.◌++◌ "." (String.◌++◌ host.pid ".tmp"))

  abbrev pub serialized : Option String → Action host String
  serialized none = fails not_serializable
  serialized (some content) = pure content

  -- `except BaseException: tmp.unlink(missing_ok=True); raise`; an error of unlink replaces the first.
  abbrev pub clean_up : String → Exception → State host → Result (Unit {0}) × State host
  clean_up tmp x st =
      let (y, w) = host.fs.unlink tmp st.world in
      (raises (os_error (elim y [ none ↦ x | some z ↦ z ])), record st { world = w })

  abbrev pub replaced : String → Option Exception → State host → Result (Unit {0}) × State host
  replaced tmp none st = (returned tt, st)
  replaced tmp (some x) st = clean_up tmp x st

  abbrev pub written :
      String → String → Option Exception → State host → Result (Unit {0}) × State host
  written tmp path none st =
      let (x, w) = host.replace tmp path st.world in replaced tmp x (record st { world = w })
  written tmp path (some x) st = clean_up tmp x st

  unfoldable pub write_file : String → String → Action host (Unit {0})
  write_file path content st =
      let (x, w) = host.fs.write (temporary path) content st.world in
      written (temporary path) path x (record st { world = w })

  -- `_save`
  unfoldable pub save : SessionRecord → Action host (Unit {0})
  unfolding path_of write_file
  save r = do
    path ← path_of r.id
    content ← serialized (host.dumps (to_dict r))
    write_file path content

  abbrev pub parsed : Option Json → Action host Json
  parsed none = fails malformed
  parsed (some j) = pure j

  abbrev pub decoded : FileState → Action host Json
  decoded absent = fails (os_error (plain ("FileNotFoundError" ∷ "OSError" ∷ []) ""))
  decoded (unreadable x) = fails (os_error x)
  decoded (holds c) = parsed (host.loads c)

  -- `json.loads(path.read_text())`
  unfoldable pub read_json : String → Action host Json
  read_json path st = decoded (host.fs.state st.world path) st

  unfoldable pub check_exists : String → String → Action host (Unit {0})
  check_exists id path st =
      if is_there (host.fs.state st.world path)
      then (returned tt, st)
      else (raises (session_not_found id), st)

  unfoldable pub get_session : String → Action host SessionRecord
  unfolding path_of check_exists read_json from_dict
  get_session id = do
    path ← path_of id
    found ← check_exists id path
    d ← read_json path
    from_dict host d

  unfoldable pub uuid : Action host String
  uuid st = let (sid, w) = host.uuid4 st.world in (returned sid, record st { world = w })

  unfoldable pub create_session : String → String → Members → Action host String
  unfolding uuid now save
  create_session workspace title metadata = do
    sid ← uuid
    stamp ← now host
    saved ← save (record {
      id = sid;
      title = if str_eq title "" then text_of ("Session " ∷ take_text 8 sid ∷ []) else title;
      workspace = workspace;
      created_at = stamp;
      updated_at = stamp;
      messages = [];
      metadata = metadata;
    })
    pure sid

  abbrev pub unlinked : Option Exception → Action host (Unit {0})
  unlinked none = pure tt
  unlinked (some x) = fails (os_error x)

  -- `path.unlink(missing_ok=True)`
  unfoldable pub unlink_path : String → Action host (Unit {0})
  unlink_path path st =
      let (x, w) = host.fs.unlink path st.world in unlinked x (record st { world = w })

  unfoldable pub delete_session : String → Action host (Unit {0})
  unfolding path_of unlink_path
  delete_session id = do path ← path_of id; unlink_path path

  unfoldable pub rename_session : String → String → Action host (Unit {0})
  unfolding get_session now save
  rename_session id title = do
    r ← get_session id
    stamp ← now host
    save (record r { title = title; updated_at = stamp })

  unfoldable pub append_message : String → String → String → Action host (Unit {0})
  unfolding path_of check_exists read_json from_dict now save
  append_message id role content = do
    path ← path_of id
    found ← check_exists id path
    d ← read_json path
    r ← from_dict host d
    ts ← now host
    stamp ← now host
    save (record r {
      messages = r.messages ++ record { role = role; content = content; ts = ts } ∷ [];
      updated_at = stamp;
    })

  unfoldable pub load_history : String → Option ℕ → Action host (List ApiMessage)
  unfolding get_session last_messages api_message
  load_history id limit = do
    r ← get_session id
    pure (map api_message (last_messages limit r.messages))

  unfoldable pub update_metadata : String → Members → Action host (Unit {0})
  unfolding get_session now save merge
  update_metadata id metadata = do
    r ← get_session id
    stamp ← now host
    save (record r { metadata = merge r.metadata metadata; updated_at = stamp })

  abbrev pub noted : Result SessionRecord → List Summary → List Summary
  noted (returned r) ss = summary_dict r ∷ ss
  noted (raises f) ss = ss

  -- The loop of `list_sessions`: a file that cannot be read is passed over.
  unfoldable pub summaries : List String → State host → List Summary × State host
  unfolding read_json from_dict summary_dict
  summaries [] st = ([], st)
  summaries (path ∷ paths) st =
      let (r, st1) = (read_json path >>= from_dict host) st in
      let (ss, st2) = summaries paths st1 in (noted r ss, st2)

  unfoldable pub list_sessions : State host → List Summary × State host
  unfolding summaries newest_first
  list_sessions st = let (ss, st') = summaries (host.listing st.world) st in (newest_first ss, st')
