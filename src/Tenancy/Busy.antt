-- ===== src/Tenancy/Busy.antt =====
-- No busy session is lost.
use pearl_ai.Tenancy.{
  Entry, entry_of, drop_idle, evict_one, peek, evict_over, drop_user, evict_idle,
  evict_over_capacity, get_or_create, session_in, with_entry,
}
use pearl_ai.Base.{
  String, ℕ, Bool, true, false, List, [], ◌∷◌, ◌≡◌, refl, some, Bool-cases, ap, inl, inr, str_eq,
  sym, ◌∙◌, Option-cases, arith, length, ltb, none, not, subst, suc, zero, ◌&&◌, ◌++◌, ◌+◌, Option,
  eq_iff, ◌==◌,
}

module _ {S : Type 0} (is_busy : S → Bool) (v : String) (x : S) where
  abbrev Has : List (Entry S) → Type 0
  Has es = peek is_busy v es ≡ some x

  peek-other :
      (e : Entry S) (es : List (Entry S))
      → str_eq e.user v ≡ false
      → peek is_busy v (e ∷ es) ≡ peek is_busy v es
  unfolding peek entry_of
  peek-other e es b = rw b refl

  peek-own :
      (e : Entry S) (es : List (Entry S))
      → str_eq e.user v ≡ true
      → peek is_busy v (e ∷ es) ≡ some e.session
  unfolding peek entry_of
  peek-own e es b = rw b refl

  -- A list that drops entries which are not busy still has the busy session.
  cons-Has :
      (e : Entry S) (es es' : List (Entry S)) → (Has es → Has es') → Has (e ∷ es) → Has (e ∷ es')
  cons-Has e es es' f h = elim (Bool-cases (str_eq e.user v)) [
    | inl b ↦ peek-own e es' b ∙ sym (peek-own e es b) ∙ h
    | inr b ↦ peek-other e es' b ∙ f (sym (peek-other e es b) ∙ h)
  ]

  skip-Has :
      (e : Entry S) (es : List (Entry S))
      → is_busy x ≡ true
      → is_busy e.session ≡ false
      → Has (e ∷ es)
      → Has es
  skip-Has e es h n p = elim (Bool-cases (str_eq e.user v)) [
    | inl b ↦
        let g : some e.session ≡ some x = sym (peek-own e es b) ∙ p in
        let s : e.session ≡ x = cc g in
        let t : true ≡ false = sym h ∙ sym (ap is_busy s) ∙ n in cc t
    | inr b ↦ sym (peek-other e es b) ∙ p
  ]

  drop_idle-Has :
      (timeout now : ℕ) (es : List (Entry S))
      → is_busy x ≡ true
      → Has es
      → Has (drop_idle is_busy timeout now es)
  unfolding drop_idle
  drop_idle-Has timeout now [] h p = p
  drop_idle-Has timeout now (e ∷ es) h p =
      let ih = drop_idle-Has timeout now es h in
      elim (Bool-cases (ltb (e.last_used + timeout) now && not (is_busy e.session))) [
        | inl b ↦
            let idle : is_busy e.session ≡ false = ground (arith, b) in
            rw (b, drop_idle) (ih (skip-Has e es h idle p))
        | inr b ↦ rw (b, drop_idle) (cons-Has e es (drop_idle is_busy timeout now es) ih p)
      ]

  evict_one-Has :
      (es es' : List (Entry S))
      → is_busy x ≡ true
      → evict_one is_busy es ≡ some es'
      → Has es
      → Has es'
  unfolding evict_one
  evict_one-Has [] es' h e p = cc e
  evict_one-Has (e ∷ es) es' h q p = elim (Bool-cases (is_busy e.session)) [
    | inr b ↦
        let g : some es ≡ some es' = (rw (b, evict_one) at q) in
        let s : es ≡ es' = cc g in subst Has s (skip-Has e es h b p)
    | inl b ↦ elim (Option-cases (evict_one is_busy es)) [
      | inl n ↦ (let g : none ≡ some es' = (rw (b, n, evict_one) at q) in cc g)
      | inr (t, n) ↦
          let g : some (e ∷ t) ≡ some es' = (rw (b, n, evict_one) at q) in
          let s : e ∷ t ≡ es' = cc g in subst Has s (cons-Has e es t (evict_one-Has es t h n) p)
    ]
  ]

  evict_over-Has :
      (fuel most : ℕ) (es : List (Entry S))
      → is_busy x ≡ true
      → Has es
      → Has (evict_over is_busy fuel most es)
  unfolding evict_over
  evict_over-Has zero most es h p = p
  evict_over-Has (suc fuel) most es h p = elim (Option-cases (evict_one is_busy es)) [
    | inl e ↦ rw (e, evict_over) p
    | inr (t, e) ↦
        let ih = evict_over-Has fuel most t h (evict_one-Has es t h e p) in
        elim (Bool-cases (ltb most (length es))) [
          | inl b ↦ rw (e, b, evict_over) ih
          | inr b ↦ rw (e, b, evict_over) p
        ]
  ]

  append-Has : (es ys : List (Entry S)) → Has es → Has (es ++ ys)
  unfolding peek entry_of
  append-Has [] ys p = cc p
  append-Has (e ∷ es) ys p = cons-Has e es (es ++ ys) (append-Has es ys) p

  drop_user-Has :
      (u : String) (es : List (Entry S))
      → str_eq u v ≡ false
      → Has es
      → Has (drop_user is_busy u es)
  unfolding drop_user
  drop_user-Has u [] n p = p
  drop_user-Has u (e ∷ es) n p =
      let ih = drop_user-Has u es n in
      elim (Bool-cases (str_eq e.user u)) [
        | inr b ↦ rw (b, drop_user) (cons-Has e es (drop_user is_busy u es) ih p)
        | inl b ↦
            let other : str_eq e.user v ≡ false =
              ap (λ k. str_eq k v) ((eq_iff e.user u).0 b) ∙ n in
            rw (b, drop_user) (ih (sym (peek-other e es other) ∙ p))
      ]

  -- The user of the request: its entry moves to the end.
  moved :
      (es : List (Entry S)) (e : Entry S)
      → e.user ≡ v
      → e.session ≡ x
      → Has (drop_user is_busy v es ++ e ∷ [])
  unfolding drop_user
  moved [] e u s = peek-own e [] ((eq_iff e.user v).1 u) ∙ ap some s
  moved (f ∷ es) e u s = elim (Bool-cases (str_eq f.user v)) [
    | inl b ↦ rw (b, drop_user) (moved es e u s)
    | inr b ↦ rw (b, drop_user) (peek-other f (drop_user is_busy v es ++ e ∷ []) b ∙ moved es e u s)
  ]

  entry_of-user :
      (u : String) (es : List (Entry S)) (e : Entry S) → entry_of is_busy u es ≡ some e → e.user ≡ u
  unfolding entry_of
  entry_of-user u [] e h = cc h
  entry_of-user u (f ∷ es) e h = elim (Bool-cases (str_eq f.user u)) [
    | inl b ↦
        let g : some f ≡ some e = (rw (b, entry_of) at h) in
        let s : f ≡ e = cc g in sym (ap Entry.user s) ∙ (eq_iff f.user u).0 b
    | inr b ↦ entry_of-user u es e (rw (b, entry_of) at h)
  ]

  with_entry-Has :
      (most now : ℕ) (u : String) (fresh : S) (o : Option (Entry S)) (es : List (Entry S))
      → is_busy x ≡ true
      → entry_of is_busy u es ≡ o
      → Has es
      → Has (with_entry is_busy most now u fresh o es).1
  unfolding with_entry evict_over_capacity
  with_entry-Has most now u fresh none es h e p =
      evict_over-Has _ most _ h
        (append-Has es (record { user = u; session = fresh; last_used = now } ∷ []) p)
  with_entry-Has most now u fresh (some f) es h e p =
      let f' : Entry S = record f { last_used = now } in
      elim (Bool-cases (str_eq u v)) [
        | inr b ↦ append-Has (drop_user is_busy u es) (f' ∷ []) (drop_user-Has u es b p)
        | inl b ↦
            let s : u ≡ v = (eq_iff u v).0 b in
            let mine : entry_of is_busy v es ≡ some f =
              ap (λ k. entry_of is_busy k es) (sym s) ∙ e in
            let g : some f.session ≡ some x =
              sym (ap (session_in is_busy) mine) ∙ (unfold peek in p) in
            subst (λ k. Has (drop_user is_busy k es ++ f' ∷ [])) (sym s)
              (moved es f' (entry_of-user v es f mine) (let k : f.session ≡ x = cc g in k))
      ]

  -- A request, whoever makes it, loses no busy session: the user still has the same one.
  pub get_or_create-keeps_busy :
      (most timeout checked now : ℕ) (u : String) (fresh : S) (es : List (Entry S))
      → is_busy x ≡ true
      → peek is_busy v es ≡ some x
      → peek is_busy v (get_or_create is_busy most timeout checked now u fresh es).1 ≡ some x
  unfolding get_or_create evict_idle
  get_or_create-keeps_busy most timeout checked now u fresh es h p =
      let es' = evict_idle is_busy timeout checked es in
      with_entry-Has most now u fresh (entry_of is_busy u es') es' h refl
        (elim (Bool-cases (timeout == 0)) [
          | inl b ↦ rw (b, evict_idle) p
          | inr b ↦ rw (b, evict_idle) (drop_idle-Has timeout checked es h p)
        ])
