-- ===== src/Changes/Fresh.antt =====
-- The staleness test: a batch has no stale path exactly when each edit was computed against what its
-- file holds at that point of the batch.
use mathlib.Core.Path.{fun_ext}
use mathlib.Core.Bool.{false≢true}
use pearl_ai.Base.{
  String, Bool, true, false, Option, none, some, List, [], ◌∷◌, ◌++◌, ◌≡◌, ◌≢◌, ◌↔◌, refl, sym,
  subst, ◌∙◌, arith, Dict, lookup, put, lookup-put, str_eq, one_of, eq_iff, Bool-cases, inl, inr,
  if◌then◌else◌,
}
use pearl_ai.Changes.Files.{FileSystem}
use pearl_ai.Changes.{
  PendingEdit, ChangeManager, same_content, disk_content, expected, noted, stale_from, stale_paths,
}

-- What each file holds, or would hold.
abbrev pub View : Type 0
View = String → Option String

abbrev pub update : View → String → Option String → View
update v p c q = if str_eq p q then c else v q

-- Each edit was computed against the view that the edits before it leave.
abbrev pub Fresh : View → List PendingEdit → Type 0
Fresh v [] = Unit
Fresh v (e ∷ es) = (v e.path ≡ e.original_content) × Fresh (update v e.path e.updated_content) es

-- The view after the batch.
abbrev pub after : View → List PendingEdit → View
after v [] = v
after v (e ∷ es) = after (update v e.path e.updated_content) es

same_content_iff : (a b : Option String) → (same_content a b ≡ true) ↔ (a ≡ b)
same_content_iff none none = ground arith
same_content_iff (some a) (some b) = ground (arith, eq_iff a b)
same_content_iff none (some b) = ground arith
same_content_iff (some a) none = ground arith

noted-cons :
    (b : Bool) (p x : String) (xs : List String)
    → (ys : List String) × (noted b p (x ∷ xs) ≡ x ∷ ys)
unfolding noted
noted-cons true p x xs = (xs, refl)
noted-cons false p x xs = elim (Bool-cases (one_of p (x ∷ xs))) [
  | inl old ↦ (xs, rw old)
  | inr new ↦ (xs ++ p ∷ [], rw new)
]

noted-differs : (b : Bool) (p : String) → b ≡ false → noted b p [] ≡ p ∷ []
unfolding noted
noted-differs b p h = ground arith

noted-same : (b : Bool) (p : String) → b ≡ true → noted b p [] ≡ []
unfolding noted
noted-same b p h = ground arith

module _ (fs : FileSystem) where
  open fs use {World}

  stale_from-cons :
      (w : World) (e : PendingEdit) (es : List PendingEdit) (projected : Dict (Option String))
      (found : List String)
      → stale_from fs w (e ∷ es) projected found
        ≡ stale_from fs w es
            (put e.path e.updated_content projected)
            (noted (same_content (expected fs w projected e.path) e.original_content) e.path found)
  unfolding stale_from
  stale_from-cons w e es projected found = refl

  -- A stale path, once found, stays in the list.
  stale_from-ne-nil :
      (w : World) (es : List PendingEdit) (projected : Dict (Option String)) (x : String)
      (xs : List String)
      → stale_from fs w es projected (x ∷ xs) ≢ []
  unfolding stale_from
  stale_from-ne-nil w [] projected x xs = λ h. cc
  stale_from-ne-nil w (e ∷ es) projected x xs =
      let (ys, more) =
        noted-cons (same_content (expected fs w projected e.path) e.original_content) e.path x xs in
      rw more (stale_from-ne-nil w es (put e.path e.updated_content projected) x ys)

  expected-put :
      (w : World) (projected : Dict (Option String)) (p q : String) (c : Option String)
      → expected fs w (put p c projected) q ≡ update (expected fs w projected) p c q
  unfolding expected
  expected-put w projected p q c = ground (arith, lookup-put p q c projected)

  -- The loop finds nothing exactly when the batch is fresh for the running projection.
  stale_from-nil_iff :
      (w : World) (es : List PendingEdit) (projected : Dict (Option String))
      → (stale_from fs w es projected [] ≡ []) ↔ Fresh (expected fs w projected) es
  stale_from-nil_iff w [] projected = (λ _. tt, λ _. unfold stale_from in refl)
  stale_from-nil_iff w (e ∷ es) projected =
      let v = expected fs w projected in
      let same = same_content_iff (v e.path) e.original_content in
      let next : expected fs w (put e.path e.updated_content projected)
          ≡ update v e.path e.updated_content =
        fun_ext (λ q. expected-put w projected e.path q e.updated_content) in
      let rest =
        subst
          (λ u. (stale_from fs w es (put e.path e.updated_content projected) [] ≡ []) ↔ Fresh u es)
          next (stale_from-nil_iff w es (put e.path e.updated_content projected)) in
      elim (Bool-cases (same_content (v e.path) e.original_content)) [
        | inl agrees ↦
            rw (stale_from-cons, noted-same _ e.path agrees)
              (λ h. (same.0 agrees, rest.0 h), λ f. rest.1 f.1)
        | inr differs ↦
            rw (stale_from-cons, noted-differs _ e.path differs)
              (
                λ h. absurd (stale_from-ne-nil w es _ _ _ h),
                λ f. absurd (false≢true (sym differs ∙ same.1 f.0)),
              )
      ]

  -- `stale_paths` is empty exactly when every edit of the batch was computed against what its file
  -- holds on disk, or against what an earlier edit of the batch leaves in it.
  pub stale_paths-nil_iff :
      (m : ChangeManager) (w : World)
      → (stale_paths fs m w ≡ []) ↔ Fresh (disk_content fs w) m.edits
  unfolding stale_paths expected lookup
  stale_paths-nil_iff m w = stale_from-nil_iff w m.edits []
