-- ===== src/Tests/Tenants.antt =====
-- Two users with busy sessions, and a third one. A session is a number, and an odd one is busy.
use pearl_ai.Tenancy.{Entry, entry_of, get_or_create, peek}
use pearl_ai.Tenancy.Busy.{get_or_create-keeps_busy}
use pearl_ai.Tenancy.Capacity.{get_or_create_unkept}
use pearl_ai.Base.{String, ℕ, Bool, List, [], ◌∷◌, ◌≡◌, refl, some, none, arith, ◌%◌, ◌==◌}

abbrev is_busy : ℕ → Bool
is_busy s = s % 2 == 1

abbrev entry : String → ℕ → Entry ℕ
entry u s = record { user = u; session = s; last_used = 0 }

abbrev registry : List (Entry ℕ)
registry = entry "ann" 1 ∷ entry "bob" 3 ∷ []

ann_there : peek is_busy "ann" registry ≡ some 1
unfolding peek entry_of
ann_there = refl

get_or_create-keeps_busy_example :
    peek is_busy "ann" (get_or_create is_busy 2 60 100 101 "carol" 5 registry).1 ≡ some 1
get_or_create-keeps_busy_example =
    get_or_create-keeps_busy is_busy "ann" 1 2 60 100 101 "carol" 5 registry refl ann_there

carol_new : entry_of is_busy "carol" registry ≡ none
unfolding entry_of
carol_new = refl

get_or_create_unkept_example : get_or_create is_busy 2 60 100 101 "carol" 4 registry ≡ (4, registry)
get_or_create_unkept_example =
    get_or_create_unkept is_busy 2 60 100 101 "carol" 4 registry (refl, (refl, tt)) (omega arith)
      carol_new refl
