-- ===== src/Changes/Commit.antt =====
-- A batch that goes through: what the files hold afterwards.
use mathlib.Core.Path.{fun_ext}
use mathlib.Core.List.{append-nil, append_assoc}
use pearl_ai.Base.{
  String, Option, none, some, List, [], ◌∷◌, ◌++◌, map, ◌≡◌, refl, sym, ap, subst, ◌∙◌, arith, Dict,
  str_eq, eq_iff, Bool-cases, Option-cases, inl, inr,
}
use pearl_ai.Changes.Files.{FileSystem}
use pearl_ai.Changes.Fresh.{update, after}
use pearl_ai.Changes.Writes.{
  state_of, write_content-done, write_content-frame, write_all-next, write_all-stop,
  apply_all-Ending, changed, nothing, unread, written,
}
use pearl_ai.Changes.{
  PendingEdit, ChangeManager, applied, content_of, disk_content, write_edit, write_all,
  write_or_rollback, apply_all, affected_files,
}

pub content_of-state_of : (c : Option String) → content_of (state_of c) ≡ c
content_of-state_of none = refl
content_of-state_of (some c) = refl

abbrev paths : List PendingEdit → List String
paths es = map (λ e. e.path) es

module _ (fs : FileSystem) where
  open fs use {World, state}

  write_edit-view :
      (e : PendingEdit) (w : World)
      → (write_edit fs e w).0 ≡ none
      → disk_content fs (write_edit fs e w).1 ≡ update (disk_content fs w) e.path e.updated_content
  unfolding disk_content
  write_edit-view e w h = fun_ext λ q. elim (Bool-cases (str_eq e.path q)) [
    | inl same ↦ rw same (
        subst (λ p. content_of (state (write_edit fs e w).1 p) ≡ e.updated_content)
          ((eq_iff e.path q).0 same)
          (ap content_of (write_content-done fs e.path e.updated_content w h)
            ∙ content_of-state_of e.updated_content))
    | inr other ↦ rw other (
        ap content_of (
          write_content-frame fs e.path e.updated_content q w
            (λ p. cc ((eq_iff e.path q).1 p, other))))
  ]

  write_all-done :
      (es : List PendingEdit) (prev : List String) (w : World)
      → (write_all fs es prev w).0 ≡ none
      → ((write_all fs es prev w).1 ≡ prev ++ paths es)
        × (disk_content fs (write_all fs es prev w).2 ≡ after (disk_content fs w) es)
  write_all-done [] prev w h = unfold write_all in (sym (append-nil prev), refl)
  write_all-done (e ∷ es) prev w h = elim (Option-cases (write_edit fs e w).0) [
    | inl went ↦
        let step = write_all-next fs e es prev w went in
        let (done, view) =
          write_all-done es (prev ++ e.path ∷ []) (write_edit fs e w).1
            (ap (λ r. r.0) (sym step) ∙ h) in
        (
          ap (λ r. r.1) step ∙ done ∙ append_assoc prev (e.path ∷ []) (paths es),
          ap (λ r. disk_content fs r.2) step
              ∙ view
              ∙ ap (λ v. after v es) (write_edit-view e w went),
        )
    | inr (x, stop) ↦ cc (write_all-stop fs e es prev w x stop)
  ]

  applied_inj : {ps qs : List String} → applied ps ≡ applied qs → ps ≡ qs
  applied_inj h = cc

  write_or_rollback-applied :
      (m : ChangeManager) (snaps : Dict (Option String)) (w : World) (ps : List String)
      → (write_or_rollback fs m snaps w).0 ≡ applied ps
      → ((write_all fs m.edits [] w).0 ≡ none)
        × (ps ≡ (write_all fs m.edits [] w).1)
        × (write_or_rollback fs m snaps w
            ≡ (applied ps, record m { edits = [] }, (write_all fs m.edits [] w).2))
  unfolding write_or_rollback
  write_or_rollback-applied m snaps w ps h = ground arith

  -- When `apply_all` succeeds, it reports the staged paths in their order, leaves nothing staged, and
  -- every path of the disk, staged or not, holds what the edits in turn make of what it held.
  pub apply_all-applied :
      (m : ChangeManager) (w : World) (ps : List String)
      → (apply_all fs m w).0 ≡ applied ps
      → (ps ≡ affected_files m)
        × ((apply_all fs m w).1.edits ≡ [])
        × ((q : String)
            → disk_content fs (apply_all fs m w).2 q ≡ after (disk_content fs w) m.edits q)
  unfolding affected_files
  apply_all-applied m w ps h = elim (apply_all-Ending fs m w) [
    | nothing e r ↦ rw (r, e) (sym (applied_inj (ap (λ t. t.0) (sym r) ∙ h)), refl, λ q. refl)
    | changed e r ↦ cc r
    | unread x e f r ↦ cc r
    | written snaps e f r ↦
        let (went, done, out) =
          write_or_rollback-applied m snaps w ps (ap (λ t. t.0) (sym r) ∙ h) in
        let (names, view) = write_all-done m.edits [] w went in
        rw (r, out) (done ∙ names, refl, λ q. ap (λ v. v q) view)
  ]
