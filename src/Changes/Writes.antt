-- ===== src/Changes/Writes.antt =====
-- One round of the write loop and of the rollback: its effect on its own file, and on the others.
use pearl_ai.Base.{
  List, [], ◌∷◌, ◌++◌, String, Option, none, some, ◌≡◌, ◌≢◌, arith, Dict, ap, false, inl, inr,
  is_empty, refl, ◌⊎◌,
}
use pearl_ai.Python.{Exception}
use pearl_ai.Changes.Files.{FileState, absent, holds, FileSystem}
use pearl_ai.Changes.{
  ChangeManager, Applied, applied, stale, failed, Snapshots, taken, raised, snapshot, stale_paths,
  write_or_rollback, apply_all, PendingEdit, write_content, write_edit, write_all, restore_to,
}

-- The state of a file with this content.
abbrev pub state_of : Option String → FileState
state_of none = absent
state_of (some c) = holds c

list_cases {ℓ} : {A : Type ℓ} (xs : List A) → (xs ≡ []) ⊎ (is_empty xs ≡ false)
list_cases [] = inl refl
list_cases (x ∷ xs) = inr refl

module _ (fs : FileSystem) where
  open fs use {
    World, state, write, unlink, make_parents, write_done, write_frame, unlink_done, unlink_frame,
    make_parents_frame,
  }

  pub write_content-done :
      (p : String) (c : Option String) (w : World)
      → (write_content fs p c w).0 ≡ none
      → state (write_content fs p c w).1 p ≡ state_of c
  unfolding write_content
  write_content-done p none w h = unlink_done p w h
  write_content-done p (some c) w h = ground (arith, write_done p c (make_parents p w).1)

  pub write_content-frame :
      (p : String) (c : Option String) (q : String) (w : World)
      → p ≢ q
      → state (write_content fs p c w).1 q ≡ state w q
  unfolding write_content
  write_content-frame p none q w h = unlink_frame p q w h
  write_content-frame p (some c) q w h =
      ground (arith, write_frame p c q (make_parents p w).1 h, make_parents_frame p q w)

  pub restore_to-done :
      (c : Option String) (p : String) (w : World)
      → (restore_to fs (some c) p w).0 ≡ none
      → state (restore_to fs (some c) p w).1 p ≡ state_of c
  unfolding restore_to
  restore_to-done none p w h = unlink_done p w h
  restore_to-done (some c) p w h = write_done p c w h

  pub restore_to-frame :
      (o : Option (Option String)) (p q : String) (w : World)
      → p ≢ q
      → state (restore_to fs o p w).1 q ≡ state w q
  unfolding restore_to
  restore_to-frame none p q w h = unlink_frame p q w h
  restore_to-frame (some none) p q w h = unlink_frame p q w h
  restore_to-frame (some (some c)) p q w h = write_frame p c q w h

  -- The write loop after a round that goes through, and after one that fails.
  pub write_all-next :
      (e : PendingEdit) (es : List PendingEdit) (prev : List String) (w : World)
      → (write_edit fs e w).0 ≡ none
      → write_all fs (e ∷ es) prev w ≡ write_all fs es (prev ++ e.path ∷ []) (write_edit fs e w).1
  unfolding write_all
  write_all-next e es prev w h = ground arith

  pub write_all-stop :
      (e : PendingEdit) (es : List PendingEdit) (prev : List String) (w : World) (x : Exception)
      → (write_edit fs e w).0 ≡ some x
      → write_all fs (e ∷ es) prev w ≡ (some x, prev, (write_edit fs e w).1)
  unfolding write_all
  write_all-stop e es prev w x h = ground arith

  -- The four ways through `apply_all`: nothing staged, a stale path, a file that cannot be read for
  -- its snapshot, and the write loop.
  pub data Ending (m : ChangeManager) (w : World) (r : Applied × ChangeManager × World)
      : Type 0 where
    nothing : m.edits ≡ [] → r ≡ (applied [], m, w) → Ending m w r
    changed : stale_paths fs m w ≢ [] → r ≡ (stale (stale_paths fs m w), m, w) → Ending m w r
    unread :
        (x : Exception)
        → stale_paths fs m w ≡ []
        → snapshot fs w m.edits [] ≡ raised x
        → r ≡ (failed x [], m, w)
        → Ending m w r
    written :
        (snaps : Dict (Option String))
        → stale_paths fs m w ≡ []
        → snapshot fs w m.edits [] ≡ taken snaps
        → r ≡ write_or_rollback fs m snaps w
        → Ending m w r

  Ending-taken :
      (m : ChangeManager) (w : World) (s : Snapshots fs)
      → snapshot fs w m.edits [] ≡ s
      → is_empty m.edits ≡ false
      → stale_paths fs m w ≡ []
      → Ending m w (apply_all fs m w)
  unfolding apply_all
  Ending-taken m w (taken snaps) e f g = written snaps g e (rw (f, g, e))
  Ending-taken m w (raised x) e f g = unread x g e (rw (f, g, e))

  pub apply_all-Ending : (m : ChangeManager) (w : World) → Ending m w (apply_all fs m w)
  unfolding apply_all
  apply_all-Ending m w = elim (list_cases m.edits) [
    | inl e ↦ nothing e (rw e)
    | inr full ↦ elim (list_cases (stale_paths fs m w)) [
      | inl fresh ↦ Ending-taken m w (snapshot fs w m.edits []) refl full fresh
      | inr some_stale ↦ changed (λ e. cc (ap is_empty e, some_stale)) (rw (full, some_stale))
    ]
  ]
