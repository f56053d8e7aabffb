-- ===== src/Tenancy/Capacity.antt =====
-- The cap on the number of sessions.
use pearl_ai.Tenancy.{
  Entry, entry_of, drop_idle, evict_idle, evict_one, evict_over, evict_over_capacity, with_entry,
  get_or_create,
}
use pearl_ai.Base.{
  String, ℕ, Bool, true, false, List, [], ◌∷◌, ◌++◌, ◌≡◌, refl, none, some, All, Bool-cases,
  Option-cases, ap, arith, inl, inr, length, ltb, ltb→le, not, suc, zero, ◌&&◌, ◌+◌, ◌==◌, ◌∙◌, ◌≤◌,
  ◌⊎◌, length-append,
}

module _ {S : Type 0} (is_busy : S → Bool) where
  abbrev pub AllBusy : List (Entry S) → Type 0
  AllBusy = All (λ (e : Entry S). is_busy e.session ≡ true)

  evict_one-all : (es : List (Entry S)) → AllBusy es → evict_one is_busy es ≡ none
  unfolding evict_one
  evict_one-all [] h = refl
  evict_one-all (e ∷ es) h = rw (h.0, evict_one-all es h.1, evict_one) refl

  evict_one-last :
      (es : List (Entry S)) (e : Entry S)
      → AllBusy es
      → is_busy e.session ≡ false
      → evict_one is_busy (es ++ e ∷ []) ≡ some es
  unfolding evict_one
  evict_one-last [] e h n = rw (n, evict_one) refl
  evict_one-last (f ∷ es) e h n = rw (h.0, evict_one-last es e h.1 n, evict_one) refl

  evict_one-length :
      (es es' : List (Entry S)) → evict_one is_busy es ≡ some es' → length es ≡ suc (length es')
  unfolding evict_one
  evict_one-length [] es' h = cc h
  evict_one-length (e ∷ es) es' h = elim (Bool-cases (is_busy e.session)) [
    | inr b ↦
        let g : some es ≡ some es' = (rw (b, evict_one) at h) in
        let s : es ≡ es' = cc g in ap (λ k. suc (length k)) s
    | inl b ↦ elim (Option-cases (evict_one is_busy es)) [
      | inl n ↦ (let g : none ≡ some es' = (rw (b, n, evict_one) at h) in cc g)
      | inr (t, n) ↦
          let g : some (e ∷ t) ≡ some es' = (rw (b, n, evict_one) at h) in
          let s : e ∷ t ≡ es' = cc g in
          ap suc (evict_one-length es t n) ∙ ap (λ k. suc (length k)) s
    ]
  ]

  none→AllBusy : (es : List (Entry S)) → evict_one is_busy es ≡ none → AllBusy es
  unfolding evict_one
  none→AllBusy [] h = tt
  none→AllBusy (e ∷ es) h = elim (Bool-cases (is_busy e.session)) [
    | inr b ↦ (let g : some es ≡ none = (rw (b, evict_one) at h) in cc g)
    | inl b ↦ elim (Option-cases (evict_one is_busy es)) [
      | inl n ↦ (b, none→AllBusy es n)
      | inr (t, n) ↦ (let g : some (e ∷ t) ≡ none = (rw (b, n, evict_one) at h) in cc g)
    ]
  ]

  evict_over-all :
      (fuel most : ℕ) (es : List (Entry S)) → AllBusy es → evict_over is_busy fuel most es ≡ es
  unfolding evict_over
  evict_over-all zero most es h = refl
  evict_over-all (suc fuel) most es h = rw (evict_one-all es h, evict_over) refl

  evict_over-Within :
      (fuel most : ℕ) (es : List (Entry S))
      → length es ≤ fuel
      → (length (evict_over is_busy fuel most es) ≤ most)
        ⊎ AllBusy (evict_over is_busy fuel most es)
  unfolding evict_over
  evict_over-Within zero most [] l = inr tt
  evict_over-Within zero most (e ∷ es) l = absurd (omega (arith, l))
  evict_over-Within (suc fuel) most es l = elim (Option-cases (evict_one is_busy es)) [
    | inl e ↦ rw (e, evict_over) (inr (none→AllBusy es e))
    | inr (t, e) ↦ elim (Bool-cases (ltb most (length es))) [
      | inl b ↦
          rw (e, b, evict_over)
            (evict_over-Within fuel most t (omega (arith, l, evict_one-length es t e)))
      | inr b ↦ rw (e, b, evict_over) (inl (ltb→le most (length es) b))
    ]
  ]

  -- Behind the eviction, the sessions are within the cap, or all are busy.
  pub evict_over_capacity-Within :
      (most : ℕ) (es : List (Entry S))
      → (length (evict_over_capacity is_busy most es) ≤ most)
        ⊎ AllBusy (evict_over_capacity is_busy most es)
  unfolding evict_over_capacity
  evict_over_capacity-Within most es = evict_over-Within (length es) most es (omega arith)

  drop_idle-all :
      (timeout now : ℕ) (es : List (Entry S)) → AllBusy es → drop_idle is_busy timeout now es ≡ es
  unfolding drop_idle
  drop_idle-all timeout now [] h = refl
  drop_idle-all timeout now (e ∷ es) h =
      let n : (ltb (e.last_used + timeout) now && not (is_busy e.session)) ≡ false =
        ground (arith, h.0) in
      rw (n, drop_idle-all timeout now es h.1, drop_idle) refl

  evict_last :
      (most : ℕ) (es : List (Entry S)) (e : Entry S)
      → AllBusy es
      → is_busy e.session ≡ false
      → most ≤ length es
      → evict_over_capacity is_busy most (es ++ e ∷ []) ≡ es
  unfolding evict_over_capacity evict_over
  evict_last most es e h n l =
      let all = es ++ e ∷ [] in
      let z : length all ≡ suc (length es) = length-append es (e ∷ []) ∙ (omega arith) in
      let over : ltb most (length all) ≡ true = ground (arith, z, l) in
      ap (λ k. evict_over is_busy k most all) z
      ∙ (rw (evict_one-last es e h n, over, evict_over-all (length es) most es h, evict_over) refl)

  -- At the cap, with every other session busy, the session of a new user is handed out and not kept.
  pub get_or_create_unkept :
      (most timeout checked now : ℕ) (u : String) (fresh : S) (es : List (Entry S))
      → AllBusy es
      → most ≤ length es
      → entry_of is_busy u es ≡ none
      → is_busy fresh ≡ false
      → get_or_create is_busy most timeout checked now u fresh es ≡ (fresh, es)
  unfolding get_or_create evict_idle with_entry
  get_or_create_unkept most timeout checked now u fresh es h l n b =
      let e : Entry S = record { user = u; session = fresh; last_used = now } in
      let same : evict_idle is_busy timeout checked es ≡ es = elim (Bool-cases (timeout == 0)) [
        | inl z ↦ rw (z, evict_idle) refl
        | inr z ↦ rw (z, evict_idle) (drop_idle-all timeout checked es h)
      ] in
      ap (λ k. with_entry is_busy most now u fresh (entry_of is_busy u k) k) same
      ∙ ap (λ o. with_entry is_busy most now u fresh o es) n
      ∙ ap (λ k. (fresh, k)) (evict_last most es e h b l)
