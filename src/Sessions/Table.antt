-- ===== src/Sessions/Table.antt =====
-- The abstract view of the store: a table from ids to sessions.
use pearl_ai.Sessions.Machine.{Host}
use pearl_ai.Sessions.Decode.{State}
use pearl_ai.Sessions.Values.{object}
use pearl_ai.Sessions.Manager.{
  get_session, path_of, check_exists, read_json, safe_chars, session_path,
}
use pearl_ai.Sessions.Save.{on_disk, SameFiles}
use pearl_ai.Sessions.Roundtrip.{from_dict-to_dict}
use pearl_ai.Sessions.{
  SessionRecord, Result, returned, raises, to_dict, session_not_found, invalid_session_id,
}
use pearl_ai.Changes.Files.{FileState, holds, absent}
use pearl_ai.Base.{
  String, ◌≡◌, refl, Bool, Bool-cases, Option, Option-cases, false, if◌then◌else◌, inl, inr, none,
  some, str_eq, subst, sym, true,
}

abbrev pub Table : Type 0
Table = String → Option SessionRecord

abbrev pub put_session : String → Option SessionRecord → Table → Table
put_session id r t o = if str_eq id o then r else t o

-- What `get_session` answers: whether the id may name a file, and what is under it.
abbrev pub answer : String → Bool → Option SessionRecord → Result SessionRecord
answer id false r = raises (invalid_session_id id)
answer id true none = raises (session_not_found id)
answer id true (some r) = returned r

module _ (host : Host) where
  -- The file of a session, which also has its id.
  pub record IsFileOf (f : FileState) (id : String) (r : SessionRecord) : Type 0 where
    pub content : String
    pub file : f ≡ holds content
    pub parses : host.loads content ≡ some (object (to_dict r))
    pub named : r.id ≡ id

  abbrev pub Represented : FileState → String → Option SessionRecord → Type 0
  Represented f id none = f ≡ absent
  Represented f id (some r) = IsFileOf f id r

  -- The files hold the sessions of the table and no other one.
  abbrev pub Represents : State host → Table → Type 0
  Represents st t = (id : String) → Represented (on_disk host st id) id (t id)

  pub Represents-same :
      (st st' : State host) (t : Table) → SameFiles host st st' → Represents st t → Represents st' t
  Represents-same st st' t same rep id =
      subst (λ f. Represented f id (t id)) (sym (same id)) (rep id)

  pub found_in :
      (st : State host) (t : Table) (id : String) (r : SessionRecord)
      → Represents st t
      → t id ≡ some r
      → IsFileOf (on_disk host st id) id r
  found_in st t id r rep e = subst (Represented (on_disk host st id) id) e (rep id)

  pub missing_in :
      (st : State host) (t : Table) (id : String)
      → Represents st t
      → t id ≡ none
      → on_disk host st id ≡ absent
  missing_in st t id rep e = subst (Represented (on_disk host st id) id) e (rep id)

  pub read_json-found :
      (st : State host) (id : String) (r : SessionRecord)
      → IsFileOf (on_disk host st id) id r
      → read_json host (session_path id) st ≡ (returned (object (to_dict r)), st)
  unfolding read_json
  read_json-found st id r h = rw (h.file, h.parses) refl

  pub check_exists-found :
      (st : State host) (id : String) (r : SessionRecord)
      → IsFileOf (on_disk host st id) id r
      → check_exists host id (session_path id) st ≡ (returned tt, st)
  unfolding check_exists
  check_exists-found st id r h = rw h.file refl

  -- get_session answers with the session of the table under the id, or says that there is none, or that the
  -- id cannot name a session, and it changes nothing.
  pub get_session-answer :
      (st : State host) (t : Table) (id : String)
      → Represents st t
      → get_session host id st ≡ (answer id (str_eq (safe_chars host id) id) (t id), st)
  unfolding get_session path_of
  get_session-answer st t id rep = elim (Bool-cases (str_eq (safe_chars host id) id)) [
    | inr b ↦ rw b refl
    | inl b ↦ elim (Option-cases (t id)) [
      | inl e ↦ rw (b, e, check_exists, missing_in st t id rep e) refl
      | inr (r, e) ↦
          let h = found_in st t id r rep e in
          rw
            (
              b,
              e,
              check_exists-found st id r h,
              read_json-found st id r h,
              from_dict-to_dict host r st,
            )
            refl
    ]
  ]
