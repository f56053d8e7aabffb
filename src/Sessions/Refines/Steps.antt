-- ===== src/Sessions/Refines/Steps.antt =====
-- The steps that the operations share: the clock, a save at the end, get_session at the beginning.
use pearl_ai.Sessions.Machine.{Host}
use pearl_ai.Sessions.Decode.{State, Action, continue}
use pearl_ai.Sessions.Manager.{safe_chars, save, session_path, get_session}
use pearl_ai.Sessions.Save.{SameFiles, kept, on_disk, save-Saving, saved}
use pearl_ai.Sessions.Table.{
  Table, put_session, Represents, IsFileOf, Represented, Represents-same, found_in,
  get_session-answer,
}
use pearl_ai.Sessions.{SessionRecord, session_not_found, invalid_session_id, to_dict}
use pearl_ai.Base.{
  String, ◌≡◌, ◌≢◌, false, some, str_eq, str_lt, true, Bool-cases, eq_iff, if◌then◌else◌, inl, inr,
  refl, subst, sym, ◌∙◌, Option-cases, ap,
}
use pearl_ai.Sessions.Refines.{
  Op, Refines, Effect, Later, bad_id, effected, fault, needs, refused, unknown,
}

module _ (host : Host) where
  -- The state behind a reading of the clock.
  abbrev pub ticked : State host → State host
  ticked st =
      let (stamp, w) = host.read_clock st.world in
      record {
        last_stamp = if str_lt st.last_stamp stamp then stamp else host.later st.last_stamp;
        world = w;
      }

  pub ticked-same : (st : State host) → SameFiles host st (ticked st)
  ticked-same st id = host.read_clock_frame (session_path id) st.world

  pub ticked-Later : (st : State host) → Later st.last_stamp (ticked st).last_stamp
  ticked-Later st = elim (Bool-cases (str_lt st.last_stamp (host.read_clock st.world).0)) [
    | inl b ↦ rw b b
    | inr b ↦ rw b (host.later_lt st.last_stamp)
  ]

  put-Represents :
      (id : String) (r : SessionRecord) (st st' : State host) (t : Table)
      → IsFileOf host (on_disk host st' id) id r
      → ((o : String) → id ≢ o → on_disk host st' o ≡ on_disk host st o)
      → Represents host st t
      → Represents host st' (put_session id (some r) t)
  put-Represents id r st st' t file same rep o = elim (Bool-cases (str_eq id o)) [
    | inl b ↦ rw b (subst (λ i. IsFileOf host (on_disk host st' i) i r) ((eq_iff id o).0 b) file)
    | inr b ↦
        let ne : id ≢ o = λ e. (let g : true ≡ false = sym ((eq_iff id o).1 e) ∙ b in cc g) in
        rw b (subst (λ f. Represented host f o (t o)) (sym (same o ne)) (rep o))
  ]

  -- A save as the last step of an operation.
  pub save-Refines :
      (op : Op) (st st1 : State host) (t : Table) (r : SessionRecord)
      → SameFiles host st st1
      → Represents host st t
      → Effect op st.last_stamp st1.last_stamp t (put_session r.id (some r) t)
      → Refines host op st t (save host r st1)
  save-Refines op st st1 t r same rep effect = elim (save-Saving host r st1) [
    | kept f e x k l ↦
        refused f e (fault r.id (host.dumps (to_dict r)) x) (
          Represents-same host st1 (save host r st1).1 t k (Represents-same host st st1 t same rep))
    | saved c d e file others l ↦ effected (put_session r.id (some r) t) e (rw l effect) (
        put-Represents r.id r st1 (save host r st1).1 t
          (record {
            content = c;
            file = file;
            parses = host.loads-dumps (to_dict r) c d;
            named = refl;
          })
          others (Represents-same host st st1 t same rep))
  ]

  -- An operation that begins with get_session.
  pub opened-Refines :
      (op : Op) (id : String) (g : SessionRecord → Action host (Unit {0})) (st : State host)
      (t : Table)
      → needs op ≡ some id
      → Represents host st t
      → ((r : SessionRecord) → t id ≡ some r → r.id ≡ id → Refines host op st t (g r st))
      → Refines host op st t (continue g (get_session host id st))
  opened-Refines op id g st t n rep step =
      rw (get_session-answer host st t id rep) (elim (Bool-cases (str_eq (safe_chars host id) id)) [
        | inr b ↦ rw b (refused (invalid_session_id id) refl (bad_id id b refl) rep)
        | inl b ↦ elim (Option-cases (t id)) [
          | inl e ↦ rw (b, e) (refused (session_not_found id) refl (unknown id n e refl) rep)
          | inr (r, e) ↦ rw (b, e) (step r e (IsFileOf.named (found_in host st t id r rep e)))
        ]
      ])

  pub put-named :
      (r : SessionRecord) (id : String) (t : Table)
      → r.id ≡ id
      → put_session r.id (some r) t ≡ put_session id (some r) t
  put-named r id t n = ap (λ i. put_session i (some r) t) n
