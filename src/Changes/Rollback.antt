-- ===== src/Changes/Rollback.antt =====
-- A batch that fails: which files are put back, and which one is not.
use mathlib.Core.Bool.{false≢true}
use mathlib.Core.Option.{none-ne-some}
use pearl_ai.Python.{Exception}
use pearl_ai.Base.{
  String, Bool-cases, Dict, List, Option, [], arith, eq_iff, inl, inr, lookup, lookup-put, none,
  one_of, put, some, str_eq, true, ◌++◌, ◌∷◌, ◌≡◌, ◌≢◌, map, refl, subst, ◌⊎◌, Option-cases, ap,
  sym, ◌∙◌, false, Bool, ◌||◌,
}
use pearl_ai.Changes.Files.{FileSystem, FileState, absent, holds, unreadable}
use pearl_ai.Changes.Fresh.{stale_paths-nil_iff}
use pearl_ai.Changes.Commit.{content_of-state_of}
use pearl_ai.Changes.Writes.{
  state_of, write_all-next, write_all-stop, write_content-frame, apply_all-Ending, changed, nothing,
  restore_to-done, restore_to-frame, unread, written,
}
use pearl_ai.Changes.{
  PendingEdit, snapshot, taken, restore, rollback, write_all, write_edit, ChangeManager, apply_all,
  failed, write_or_rollback, content_of, disk_content,
}

one_of-append_left :
    (q p : String) (xs : List String) → one_of q xs ≡ true → one_of q (xs ++ p ∷ []) ≡ true
one_of-append_left q p [] h = cc
one_of-append_left q p (x ∷ xs) h = ground (arith, one_of-append_left q p xs)

one_of-append_last : (p : String) (xs : List String) → one_of p (xs ++ p ∷ []) ≡ true
one_of-append_last p [] = ground (arith, eq_iff p p)
one_of-append_last p (x ∷ xs) = ground (arith, one_of-append_last p xs)

abbrev paths : List PendingEdit → List String
paths es = map (λ e. e.path) es

apart : (p q : String) → str_eq p q ≡ false → p ≢ q
apart p q h = ground (arith, eq_iff p q)

one_of_head : (p : String) (ps : List String) → one_of p (p ∷ ps) ≡ true
one_of_head p ps = ground (arith, eq_iff p p)

one_of_tail : (a p : String) (ps : List String) → one_of a ps ≡ true → one_of a (p ∷ ps) ≡ true
one_of_tail a p ps h = ground arith

one_of_snoc :
    (q p : String) (xs : List String) (b : Bool)
    → one_of q (xs ++ p ∷ []) ≡ true
    → (one_of q xs ≡ true) ⊎ ((str_eq p q || b) ≡ true)
one_of_snoc q p [] b h = ground arith
one_of_snoc q p (x ∷ xs) b h = ground (arith, one_of_snoc q p xs b)

from_empty : (q : String) {P : Type 0} → (one_of q [] ≡ true) ⊎ P → P
from_empty q (inl h) = absurd (false≢true h)
from_empty q (inr p) = p

module _ (fs : FileSystem) where
  open fs use {World, state}

  -- The snapshots hold the state that each staged file had.
  abbrev Covers : World → Dict (Option String) → String → Type 0
  Covers w snaps p = (c : Option String) × (lookup p snaps ≡ some c) × (state w p ≡ state_of c)

  abbrev Sound : World → Dict (Option String) → Type 0
  Sound w snaps =
      (p : String) (c : Option String) → lookup p snaps ≡ some c → state w p ≡ state_of c

  Sound-put :
      (w : World) (snaps : Dict (Option String)) (p : String) (c : Option String)
      → state w p ≡ state_of c
      → Sound w snaps
      → Sound w (put p c snaps)
  Sound-put w snaps p c e h q d l = elim (Bool-cases (str_eq p q)) [
    | inl same ↦ ground (arith, lookup-put p q c snaps, (eq_iff p q).0 same)
    | inr other ↦ h q d (ground (arith, lookup-put p q c snaps))
  ]

  -- Every path of `ps` has a snapshot.
  abbrev Has : Dict (Option String) → List String → Type 0
  Has snaps ps = (p : String) → one_of p ps ≡ true → lookup p snaps ≢ none

  Has-put :
      (snaps : Dict (Option String)) (p : String) (c : Option String) (q : String)
      → lookup q snaps ≢ none
      → lookup q (put p c snaps) ≢ none
  Has-put snaps p c q h = ground (arith, lookup-put p q c snaps)

  Has-put_self :
      (snaps : Dict (Option String)) (p : String) (c : Option String)
      → lookup p (put p c snaps) ≢ none
  Has-put_self snaps p c = ground (arith, lookup-put p p c snaps, eq_iff p p)

  snapshot-step :
      (w : World) (e : PendingEdit) (es : List PendingEdit) (start snaps : Dict (Option String))
      (f : FileState)
      → state w e.path ≡ f
      → snapshot fs w (e ∷ es) start ≡ taken snaps
      → (c : Option String) × (state w e.path ≡ state_of c)
        × (snapshot fs w es (put e.path c start) ≡ taken snaps)
  unfolding snapshot
  snapshot-step w e es start snaps absent s h = (none, s, rw (s, snapshot) at h)
  snapshot-step w e es start snaps (holds c) s h = (some c, s, rw (s, snapshot) at h)
  snapshot-step w e es start snaps (unreadable x) s h = cc (rw (s, snapshot) at h)

  snapshot-Has :
      (w : World) (es : List PendingEdit) (start snaps : Dict (Option String)) (q : String)
      → snapshot fs w es start ≡ taken snaps
      → (lookup q start ≢ none) ⊎ (one_of q (paths es) ≡ true)
      → lookup q snaps ≢ none
  unfolding snapshot
  snapshot-Has w [] start snaps q e (inl h) =
      let same : start ≡ snaps = cc in subst (λ d. lookup q d ≢ none) same h
  snapshot-Has w [] start snaps q e (inr h) = cc
  snapshot-Has w (x ∷ es) start snaps q e h =
      let (c, s, rest) = snapshot-step w x es start snaps (state w x.path) refl e in
      elim (Bool-cases (str_eq x.path q)) [
        | inl same ↦ snapshot-Has w es (put x.path c start) snaps q rest (
            inl (
              subst (λ p. lookup p (put x.path c start) ≢ none) ((eq_iff x.path q).0 same)
                (Has-put_self start x.path c)))
        | inr other ↦ snapshot-Has w es (put x.path c start) snaps q rest (elim h [
          | inl had ↦ inl (Has-put start x.path c q had)
          | inr later ↦ inr (rw other at later)
        ])
      ]

  snapshot-Sound :
      (w : World) (es : List PendingEdit) (start snaps : Dict (Option String))
      → snapshot fs w es start ≡ taken snaps
      → Sound w start
      → Sound w snaps
  unfolding snapshot
  snapshot-Sound w [] start snaps e h = λ p c l. h p c (cc)
  snapshot-Sound w (x ∷ es) start snaps e h =
      let (c, s, rest) = snapshot-step w x es start snaps (state w x.path) refl e in
      snapshot-Sound w es (put x.path c start) snaps rest (Sound-put w start x.path c s h)

  nothing_failed :
      (prev : List String) (w : World) (x : Exception)
      → (write_all fs [] prev w).0 ≡ some x
      → {P : Type 0} → P
  unfolding write_all
  nothing_failed prev w x h = absurd (none-ne-some x h)

  -- The write loop when it fails: but for one file, the one that the failing round was about, each
  -- file was written by a round that went through, or is as it was.
  write_all-failed :
      (w0 : World) (es : List PendingEdit) (prev : List String) (w : World) (x : Exception)
      → (write_all fs es prev w).0 ≡ some x
      → (p : String) × ((q : String)
          → p ≢ q
          → (one_of q prev ≡ true) ⊎ (state w q ≡ state w0 q)
          → (one_of q (write_all fs es prev w).1 ≡ true)
            ⊎ (state (write_all fs es prev w).2 q ≡ state w0 q))
  write_all-failed w0 [] prev w x h = nothing_failed prev w x h
  write_all-failed w0 (e ∷ es) prev w x h = elim (Option-cases (write_edit fs e w).0) [
    | inr (y, stop) ↦ (
      e.path,
      λ q other before. rw (write_all-stop fs e es prev w y stop) (elim before [
        | inl done ↦ inl done
        | inr same ↦ inr (write_content-frame fs e.path e.updated_content q w other ∙ same)
      ]),
    )
    | inl went ↦
        let step = write_all-next fs e es prev w went in
        let (p, rest) =
          write_all-failed w0 es (prev ++ e.path ∷ []) (write_edit fs e w).1 x
            (ap (λ r. r.0) (sym step) ∙ h) in
        (
          p,
          λ q other before. rw step (
              rest q other (elim (Bool-cases (str_eq e.path q)) [
                | inl same ↦ inl (
                    subst (λ a. one_of a (prev ++ e.path ∷ []) ≡ true) ((eq_iff e.path q).0 same)
                      (one_of-append_last e.path prev))
                | inr apart ↦ elim before [
                  | inl done ↦ inl (one_of-append_left q e.path prev done)
                  | inr same ↦ inr (
                      write_content-frame fs e.path e.updated_content q w
                        (λ a. cc ((eq_iff e.path q).1 a, apart))
                      ∙ same)
                ]
              ])),
        )
  ]

  -- A path that could not be restored stays in the log of the rollback.
  rollback-lost :
      (ps : List String) (snaps : Dict (Option String)) (l : String) (ls : List String) (w : World)
      → (rollback fs ps snaps (l ∷ ls) w).0 ≢ []
  unfolding rollback
  rollback-lost [] snaps l ls w = λ h. cc
  rollback-lost (p ∷ ps) snaps l ls w = elim (Option-cases (restore fs snaps p w).0) [
    | inl went ↦ rw (went, rollback) (rollback-lost ps snaps l ls (restore fs snaps p w).1)
    | inr (x, stop) ↦
        rw (stop, rollback) (rollback-lost ps snaps l (ls ++ p ∷ []) (restore fs snaps p w).1)
  ]

  rollback-next :
      (p : String) (ps : List String) (snaps : Dict (Option String)) (w : World)
      → (rollback fs (p ∷ ps) snaps [] w).0 ≡ []
      → ((restore fs snaps p w).0 ≡ none)
        × (rollback fs (p ∷ ps) snaps [] w ≡ rollback fs ps snaps [] (restore fs snaps p w).1)
  unfolding rollback
  rollback-next p ps snaps w h = elim (Option-cases (restore fs snaps p w).0) [
    | inl went ↦ (went, rw went)
    | inr (x, stop) ↦
        absurd (rollback-lost ps snaps p [] (restore fs snaps p w).1 (rw (stop, rollback) at h))
  ]

  restored_here :
      (w0 : World) (snaps : Dict (Option String)) (w : World) (p q : String)
      → str_eq p q ≡ true
      → Sound w0 snaps
      → lookup p snaps ≢ none
      → (restore fs snaps p w).0 ≡ none
      → state (restore fs snaps p w).1 q ≡ state w0 q
  restored_here w0 snaps w p q same sound has went = elim (Option-cases (lookup p snaps)) [
    | inl missing ↦ absurd (has missing)
    | inr (c, found) ↦
        subst (λ a. state (restore fs snaps p w).1 a ≡ state w0 a) ((eq_iff p q).0 same)
          (rw found (restore_to-done fs c p w (rw found at went)) ∙ sym (sound p c found))
  ]

  -- A rollback that loses no path puts back every file that was written.
  rollback-restores :
      (w0 : World) (ps : List String) (snaps : Dict (Option String)) (w : World)
      → Sound w0 snaps
      → Has snaps ps
      → (rollback fs ps snaps [] w).0 ≡ []
      → (q : String) → (one_of q ps ≡ true) ⊎ (state w q ≡ state w0 q)
      → state (rollback fs ps snaps [] w).1 q ≡ state w0 q
  rollback-restores w0 [] snaps w sound has h q (inl b) = cc
  rollback-restores w0 [] snaps w sound has h q (inr same) = unfold rollback in same
  rollback-restores w0 (p ∷ ps) snaps w sound has h q before =
      let (went, step) = rollback-next p ps snaps w h in
      let w1 = (restore fs snaps p w).1 in
      let settled : (one_of q ps ≡ true) ⊎ (state w1 q ≡ state w0 q) =
        elim (Bool-cases (str_eq p q)) [
          | inl same ↦ inr (restored_here w0 snaps w p q same sound (has p (one_of_head p ps)) went)
          | inr other ↦
              let frame = restore_to-frame fs (lookup p snaps) p q w (apart p q other) in
              elim before [ inl b ↦ inl (rw other at b) | inr same ↦ inr (frame ∙ same) ]
        ] in
      rw step (
        rollback-restores w0 ps snaps w1 sound (λ a m. has a (one_of_tail a p ps m))
          (ap (λ r. r.0) (sym step) ∙ h) q settled)

  Has-paths :
      (w : World) (es : List PendingEdit) (snaps : Dict (Option String))
      → snapshot fs w es [] ≡ taken snaps
      → Has snaps (paths es)
  Has-paths w es snaps e p m = snapshot-Has w es [] snaps p e (inr m)

  write_all-subset :
      (es : List PendingEdit) (prev : List String) (w : World) (q : String)
      → one_of q (write_all fs es prev w).1 ≡ true
      → (one_of q prev ≡ true) ⊎ (one_of q (paths es) ≡ true)
  unfolding write_all
  write_all-subset [] prev w q h = inl h
  write_all-subset (e ∷ es) prev w q h = elim (Option-cases (write_edit fs e w).0) [
    | inr (x, stop) ↦ inl (rw (write_all-stop fs e es prev w x stop) at h)
    | inl went ↦
        elim (write_all-subset es (prev ++ e.path ∷ []) (write_edit fs e w).1 q
          (rw (write_all-next fs e es prev w went) at h)) [
            | inl old ↦ one_of_snoc q e.path prev (one_of q (paths es)) old
            | inr new ↦ inr (one_of_tail q e.path (paths es) new)
          ]
  ]

  write_or_rollback-failed :
      (m : ChangeManager) (snaps : Dict (Option String)) (w : World) (x : Exception)
      → (write_or_rollback fs m snaps w).0 ≡ failed x []
      → ((write_all fs m.edits [] w).0 ≡ some x)
        × ((rollback fs (write_all fs m.edits [] w).1 snaps [] (write_all fs m.edits [] w).2).0
            ≡ [])
        × (write_or_rollback fs m snaps w ≡ (
          failed x [],
          m,
          (rollback fs (write_all fs m.edits [] w).1 snaps [] (write_all fs m.edits [] w).2).1,
        ))
  unfolding write_or_rollback
  write_or_rollback-failed m snaps w x h = ground arith

  Sound-nil : (w : World) → Sound w []
  unfolding lookup
  Sound-nil w p c h = cc

  -- When a batch fails with every rollback step working, it is still staged as it was, and each file is
  -- as it was before the batch, but for one path at most.
  pub apply_all-failed :
      (m : ChangeManager) (w : World) (x : Exception)
      → (apply_all fs m w).0 ≡ failed x []
      → ((apply_all fs m w).1 ≡ m)
        × ((p : String) × ((q : String) → p ≢ q → state (apply_all fs m w).2 q ≡ state w q))
  apply_all-failed m w x h = elim (apply_all-Ending fs m w) [
    | nothing e r ↦ cc r
    | changed e r ↦ cc r
    | unread y e f r ↦ rw r (refl, ("", λ q other. refl))
    | written snaps e f r ↦
        let (stop, none_lost, out) =
          write_or_rollback-failed m snaps w x (ap (λ t. t.0) (sym r) ∙ h) in
        let (p, others) = write_all-failed w m.edits [] w x stop in
        let has : Has snaps (write_all fs m.edits [] w).1 = λ q b.
          snapshot-Has w m.edits [] snaps q f
            (inr (from_empty q (write_all-subset m.edits [] w q b))) in
        rw (r, out)
          (
            refl,
            (
              p,
              λ q other.
                  rollback-restores w (write_all fs m.edits [] w).1 snaps
                    (write_all fs m.edits [] w).2
                    (snapshot-Sound w m.edits [] snaps f (Sound-nil w)) has none_lost q
                    (others q other (inr refl)),
            ),
          )
  ]

  one_fresh :
      (e : PendingEdit) (w : World)
      → state w e.path ≡ state_of e.original_content
      → disk_content fs w e.path ≡ e.original_content
  unfolding disk_content
  one_fresh e w h = ap content_of h ∙ content_of-state_of e.original_content

  snapshot_one :
      (e : PendingEdit) (w : World) (c : Option String)
      → state w e.path ≡ state_of c
      → (snaps : Dict (Option String)) × (snapshot fs w (e ∷ []) [] ≡ taken snaps)
  unfolding snapshot
  snapshot_one e w none h = (put e.path none [], rw (h, snapshot))
  snapshot_one e w (some c) h = (put e.path (some c) [], rw (h, snapshot))

  write_or_rollback_one :
      (e : PendingEdit) (snaps : Dict (Option String)) (w : World) (x : Exception)
      → (write_edit fs e w).0 ≡ some x
      → write_or_rollback fs (record { edits = e ∷ [] }) snaps w
        ≡ (failed x [], record { edits = e ∷ [] }, (write_edit fs e w).1)
  unfolding write_or_rollback write_all rollback
  write_or_rollback_one e snaps w x stop = ground arith

  -- The path whose write fails is not put back: a batch of one edit, against a file that holds what
  -- the edit was computed against, ends with the file as the failed write leaves it.
  torn_write_kept :
      (e : PendingEdit) (w : World) (x : Exception)
      → state w e.path ≡ state_of e.original_content
      → (write_edit fs e w).0 ≡ some x
      → apply_all fs (record { edits = e ∷ [] }) w
        ≡ (failed x [], record { edits = e ∷ [] }, (write_edit fs e w).1)
  torn_write_kept e w x held stop =
      let m : ChangeManager = record { edits = e ∷ [] } in
      let (snaps, ready) = snapshot_one e w e.original_content held in
      elim (apply_all-Ending fs m w) [
        | nothing empty r ↦ cc empty
        | changed old r ↦ absurd (old ((stale_paths-nil_iff fs m w).1 (one_fresh e w held, tt)))
        | unread y fresh bad r ↦ cc (ready, bad)
        | written others fresh f r ↦ r ∙ write_or_rollback_one e others w x stop
      ]
