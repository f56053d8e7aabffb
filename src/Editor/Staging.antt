-- ===== src/Editor/Staging.antt =====
-- What an edit adds to the batch that is staged.
use pearl_ai.Editor.Replace.{
  Ratios, Count, Replacement, replaced, failed, apply_replacement, Desk, Resolved, write_change,
  finish_edit, edit_file, apply, escapes, inside,
}
use pearl_ai.Changes.{ChangeManager, PendingEdit, propose, disk_content, stale_paths}
use pearl_ai.Changes.Fresh.{View, Fresh, after, update, stale_paths-nil_iff}
use pearl_ai.Changes.Files.{FileSystem, FileState, absent, holds, unreadable}
use pearl_ai.Python.{is_instance}
use pearl_ai.Base.{
  String, true, false, Option, some, List, [], ◌∷◌, ◌++◌, ◌≡◌, ◌≢◌, ◌↔◌, refl, sym, ◌∙◌, inl, inr,
  Bool-cases, str_eq, eq_iff,
}

Fresh-append :
    (v : View) (es : List PendingEdit) (e : PendingEdit)
    → Fresh v (es ++ e ∷ []) ↔ (Fresh v es × (after v es e.path ≡ e.original_content))
Fresh-append v [] e = (λ h. (tt, h.0), λ h. (h.1, tt))
Fresh-append v (x ∷ es) e =
    let rest = Fresh-append (update v x.path x.updated_content) es e in
    (λ h. let r = rest.0 h.1 in ((h.0, r.0), r.1), λ h. (h.0.0, rest.1 (h.0.1, h.1)))

module _ (unified_diff : String → Option String → Option String → String) (fs : FileSystem) where
  open fs use {World, state, write}

  -- The batch with one more edit.
  abbrev pub with_edit : String → String → String → ChangeManager → ChangeManager
  with_edit p original updated m = (propose unified_diff p (some original) updated m).1

  stale_with_edit :
      (p original updated : String) (m : ChangeManager) (w : World)
      → (stale_paths fs (with_edit p original updated m) w ≡ [])
        ↔ ((stale_paths fs m w ≡ []) × (after (disk_content fs w) m.edits p ≡ some original))
  unfolding propose
  stale_with_edit p original updated m w =
      let whole = stale_paths-nil_iff fs (with_edit p original updated m) w in
      let part = stale_paths-nil_iff fs m w in
      let split = Fresh-append (disk_content fs w) m.edits _ in
      (
        λ h. let r = split.0 (whole.0 h) in (part.1 r.0, r.1),
        λ h. whole.1 (split.1 (part.0 h.0, h.1)),
      )

  module _ (ratios : Ratios) (threshold : ratios.R) where
    abbrev Desks : Type 0
    Desks = Desk ratios threshold unified_diff fs

    -- What an edit leaves while the staging is on.
    pub data Staging (m : ChangeManager) (before after_edit : Desks) : Type 0 where
      kept : after_edit ≡ before → Staging m before after_edit
      staged :
          (p original updated : String)
          → state before.world p ≡ holds original
          → updated ≢ original
          → after_edit ≡ record before { manager = some (with_edit p original updated m) }
          → ((stale_paths fs (with_edit p original updated m) before.world ≡ []) ↔ (
              (stale_paths fs m before.world ≡ [])
              × (after (disk_content fs before.world) m.edits p ≡ some original)))
          → Staging m before after_edit

    module _ (m : ChangeManager) (d : Desks) (on : d.manager ≡ some m) where
      finish_edit-Staging :
          (p original : String) (r : Replacement ratios threshold)
          → state d.world p ≡ holds original
          → Staging m d (finish_edit ratios threshold unified_diff fs p original r d).1
      unfolding finish_edit write_change
      finish_edit-Staging p original (failed e) h = kept refl
      finish_edit-Staging p original (replaced updated how sim n) h =
          elim (Bool-cases (str_eq updated original)) [
            | inl b ↦ rw b (kept refl)
            | inr b ↦
                rw (b, on)
                  (staged p original updated h
                    (λ e. (let g : true ≡ false = sym ((eq_iff updated original).1 e) ∙ b in cc g))
                    refl (stale_with_edit p original updated m d.world))
          ]

      edit_file-Staging :
          (p wanted replace : String) (how_many : Count) (s : FileState)
          → state d.world p ≡ s
          → Staging m d (edit_file ratios threshold unified_diff fs p wanted replace how_many s d).1
      unfolding edit_file
      edit_file-Staging p wanted replace how_many absent h = kept refl
      edit_file-Staging p wanted replace how_many (unreadable x) h =
          elim (Bool-cases (is_instance x "OSError")) [
            | inl b ↦ rw b (kept refl)
            | inr b ↦ rw b (kept refl)
          ]
      edit_file-Staging p wanted replace how_many (holds original) h =
          finish_edit-Staging p original
            (apply_replacement ratios threshold original wanted replace how_many) h

      -- While the staging is on, an edit touches no file. It stages nothing, or one edit more, computed
      -- against the file on disk. The batch with it is free of stale paths exactly when the batch was, and
      -- no edit that is staged before leaves the file with another content than the disk has.
      pub apply-Staging :
          (resolve : String → Resolved ratios threshold unified_diff fs)
          (path wanted replace : String) (how_many : Count)
          → Staging m d
              (apply ratios threshold unified_diff fs resolve path wanted replace how_many d).1
      unfolding apply
      apply-Staging resolve path wanted replace how_many = resolved_case (resolve path) refl
        where
          resolved_case :
              (o : Resolved ratios threshold unified_diff fs)
              → resolve path ≡ o
              → Staging m d
                  (apply ratios threshold unified_diff fs resolve path wanted replace how_many d).1
          resolved_case (escapes x) e = rw (e, apply) (kept refl)
          resolved_case (inside p) e =
              rw (e, apply) (edit_file-Staging p wanted replace how_many (state d.world p) refl)
