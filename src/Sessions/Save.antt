-- ===== src/Sessions/Save.antt =====
-- _save: a session is written as a whole or not at all.
use pearl_ai.Sessions.Machine.{Host}
use pearl_ai.Sessions.Decode.{State}
use pearl_ai.Sessions.Manager.{
  session_path, temporary, write_file, clean_up, path_of, safe_chars, save,
}
use pearl_ai.Sessions.Paths.{temporary_apart, session_path_inj}
use pearl_ai.Sessions.{
  Result, returned, raises, Failure, SessionRecord, to_dict, invalid_session_id, not_serializable,
  os_error,
}
use pearl_ai.Changes.Files.{FileState, holds}
use pearl_ai.Python.{Exception}
use pearl_ai.Base.{
  String, ◌≡◌, ◌≢◌, refl, Option, Option-cases, inl, inr, some, ◌∙◌, Bool-cases, str_eq, false,
  none,
}

module _ (host : Host) where
  -- The file of a session.
  abbrev pub on_disk : State host → String → FileState
  on_disk st id = host.fs.state st.world (session_path id)

  abbrev pub SameFiles : State host → State host → Type 0
  SameFiles st st' = (id : String) → on_disk st' id ≡ on_disk st id

  -- Why a save fails: the id, the value, or a call of the file system that fails.
  pub data Fault (id : String) (content : Option String) (f : Failure) : Type 0 where
    unsafe_id :
        str_eq (safe_chars host id) id ≡ false → f ≡ invalid_session_id id → Fault id content f
    unserializable : content ≡ none → f ≡ not_serializable → Fault id content f
    failed_write :
        (p c : String) (w : host.fs.World) (x y : Exception)
        → (host.fs.write p c w).0 ≡ some x
        → f ≡ os_error y
        → Fault id content f
    failed_replace :
        (p q : String) (w : host.fs.World) (x y : Exception)
        → (host.replace p q w).0 ≡ some x
        → f ≡ os_error y
        → Fault id content f

  -- How a session is saved under an id.
  pub data Saving (id : String) (content : Option String) (st : State host)
      (res : Result (Unit {0}) × State host) : Type 0 where
    kept :
        (f : Failure)
        → res.0 ≡ raises f
        → Fault id content f
        → SameFiles st res.1
        → res.1.last_stamp ≡ st.last_stamp
        → Saving id content st res
    saved :
        (c : String)
        → content ≡ some c
        → res.0 ≡ returned tt
        → on_disk res.1 id ≡ holds c
        → ((o : String) → id ≢ o → on_disk res.1 o ≡ on_disk st o)
        → res.1.last_stamp ≡ st.last_stamp
        → Saving id content st res

  clean_up-Saving :
      (path id : String) (content : Option String) (x : Exception) (st st1 : State host)
      → SameFiles st st1
      → st1.last_stamp ≡ st.last_stamp
      → ((y : Exception) → Fault id content (os_error y))
      → Saving id content st (clean_up host (temporary host path) x st1)
  clean_up-Saving path id content x st st1 same l fault =
      kept _ refl (fault _)
        (λ o.
          host.fs.unlink_frame (temporary host path) (session_path o) st1.world
            (temporary_apart host path o)
          ∙ same o)
        l

  module _ (id c : String) (st : State host) where
    abbrev tmp : String
    tmp = temporary host (session_path id)

    -- The states behind the write and behind the replacement.
    abbrev st1 : State host
    st1 = record st { world = (host.fs.write tmp c st.world).1 }

    abbrev st2 : State host
    st2 = record st { world = (host.replace tmp (session_path id) st1.world).1 }

    write-same : SameFiles st st1
    write-same o =
        host.fs.write_frame tmp c (session_path o) st.world
          (temporary_apart host (session_path id) o)

    replace-same :
        (x : Exception)
        → (host.replace tmp (session_path id) st1.world).0 ≡ some x
        → SameFiles st st2
    replace-same x e o =
        host.replace_failed tmp (session_path id) (session_path o) x st1.world e ∙ write-same o

    write_file-Saving : Saving id (some c) st (write_file host (session_path id) c st)
    unfolding write_file
    write_file-Saving = elim (Option-cases (host.fs.write tmp c st.world).0) [
      | inr (x, e) ↦ rw e (
          clean_up-Saving (session_path id) id (some c) x st st1 write-same refl
            (λ y. failed_write tmp c st.world x y e refl))
      | inl e ↦ elim (Option-cases (host.replace tmp (session_path id) st1.world).0) [
        | inr (x, f) ↦
            rw (e, f)
              (clean_up-Saving (session_path id) id (some c) x st st2 (replace-same x f) refl
                (λ y. failed_replace tmp (session_path id) st1.world x y f refl))
        | inl f ↦
            rw (e, f)
              (saved c refl refl
                (host.replace_done tmp (session_path id) st1.world f
                  ∙ host.fs.write_done tmp c st.world e)
                (λ o ne.
                  host.replace_frame tmp (session_path id) (session_path o) st1.world
                    (temporary_apart host (session_path id) o) (λ h. ne (session_path_inj id o h))
                  ∙ write-same o)
                refl)
      ]
    ]

  -- Saving a session leaves its file with the text of the session and every other session as it was; or
  -- it fails, and leaves every session as it was. It fails only where the id is not made of letters, digits and
  -- dashes, the session cannot be serialized, or a write or the replacement fails.
  pub save-Saving :
      (r : SessionRecord) (st : State host)
      → Saving r.id (host.dumps (to_dict r)) st (save host r st)
  unfolding save path_of
  save-Saving r st = elim (Bool-cases (str_eq (safe_chars host r.id) r.id)) [
    | inr b ↦ rw b (kept _ refl (unsafe_id b refl) (λ o. refl) refl)
    | inl b ↦ elim (Option-cases (host.dumps (to_dict r))) [
      | inl e ↦ rw (b, e) (kept _ refl (unserializable refl refl) (λ o. refl) refl)
      | inr (c, e) ↦ rw (b, e) (write_file-Saving r.id c st)
    ]
  ]
