-- ===== src/Tenancy.antt =====
-- src/api/tenancy.py: the SessionRegistry of a hosted Pearl. The entries stand in the order of their use,
-- the oldest first. What a session is, and whether it is busy, are parameters; time is counted in ticks,
-- and each reading of the clock is an argument.
pub mod Busy
pub mod Capacity
use pearl_ai.Base.{
  String, ℕ, Bool, List, [], ◌∷◌, ◌++◌, Option, none, some, false, if◌then◌else◌, length, ltb, not,
  str_eq, suc, true, zero, ◌&&◌, ◌+◌, ◌==◌,
}

pub record Entry (S : Type 0) : Type 0 where
  pub user : String
  pub session : S
  pub last_used : ℕ

module _ {S : Type 0} (is_busy : S → Bool) where
  -- `self._sessions.get(user_id)`
  unfoldable pub entry_of : String → List (Entry S) → Option (Entry S)
  entry_of u [] = none
  entry_of u (e ∷ es) = if str_eq e.user u then some e else entry_of u es

  -- `pop(user_id, None)`
  unfoldable pub drop_user : String → List (Entry S) → List (Entry S)
  drop_user u [] = []
  drop_user u (e ∷ es) = let rest = drop_user u es in if str_eq e.user u then rest else e ∷ rest

  -- `_evict_idle_locked`: what is idle and not busy goes.
  unfoldable pub drop_idle : (timeout now : ℕ) → List (Entry S) → List (Entry S)
  drop_idle timeout now [] = []
  drop_idle timeout now (e ∷ es) =
      let rest = drop_idle timeout now es in
      if ltb (e.last_used + timeout) now && not (is_busy e.session) then rest else e ∷ rest

  unfoldable pub evict_idle : (timeout now : ℕ) → List (Entry S) → List (Entry S)
  unfolding drop_idle
  evict_idle timeout now es = if timeout == 0 then es else drop_idle timeout now es

  -- The `for` loop: without the first entry that is not busy, if there is one.
  unfoldable pub evict_one : List (Entry S) → Option (List (Entry S))
  evict_one [] = none
  evict_one (e ∷ es) =
      let rest = evict_one es in
      if is_busy e.session then elim rest [ none ↦ none | some es' ↦ some (e ∷ es') ] else some es

  -- `while len(self._sessions) > self._max`
  unfoldable pub evict_over : (fuel most : ℕ) → List (Entry S) → List (Entry S)
  unfolding evict_one
  evict_over zero most es = es
  evict_over (suc fuel) most es = elim (evict_one es) [
    | none ↦ es
    | some es' ↦ let rest = evict_over fuel most es' in if ltb most (length es) then rest else es
  ]

  -- `_evict_over_capacity_locked`: each round drops an entry.
  unfoldable pub evict_over_capacity : ℕ → List (Entry S) → List (Entry S)
  unfolding evict_over
  evict_over_capacity most es = evict_over (length es) most es

  unfoldable pub with_entry :
      (most now : ℕ) → String → S → Option (Entry S) → List (Entry S) → S × List (Entry S)
  unfolding drop_user evict_over_capacity
  with_entry most now u fresh (some e) es =
      (e.session, drop_user u es ++ record e { last_used = now } ∷ [])
  with_entry most now u fresh none es = (
    fresh,
    evict_over_capacity most (es ++ record { user = u; session = fresh; last_used = now } ∷ []),
  )

  -- `get_or_create`; `fresh` is what the factory builds.
  unfoldable pub get_or_create :
      (most timeout checked now : ℕ) → String → S → List (Entry S) → S × List (Entry S)
  unfolding evict_idle entry_of with_entry
  get_or_create most timeout checked now u fresh es =
      let es' = evict_idle timeout checked es in with_entry most now u fresh (entry_of u es') es'

  abbrev pub session_in : Option (Entry S) → Option S
  session_in none = none
  session_in (some e) = some e.session

  -- `peek`
  unfoldable pub peek : String → List (Entry S) → Option S
  unfolding entry_of
  peek u es = session_in (entry_of u es)

  -- `drop`
  unfoldable pub drop_session : String → List (Entry S) → Bool × List (Entry S)
  unfolding entry_of drop_user
  drop_session u es = (elim (entry_of u es) [ none ↦ false | some e ↦ true ], drop_user u es)
