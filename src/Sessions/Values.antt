-- ===== src/Sessions/Values.antt =====
-- What `json.loads` gives and `json.dumps` takes, as far as the session files hold it. A number keeps its
-- literal.
use Prim.Native.String.{String}
use mathlib.Core.Option.{Option, none, some}
use pearl_ai.Base.{Bool, List, true, if◌then◌else◌, str_eq, one_of, ◌&&◌}

mutual
  pub data Json : Type 0 where
    null : Json
    boolean : Bool → Json
    number : String → Json
    text : String → Json
    array : Items → Json
    object : Members → Json

  pub data Items : Type 0 where
    nil : Items
    item : Json → Items → Items

  pub data Members : Type 0 where
    end : Members
    member : String → Json → Members → Members

-- `d.get(key)`
unfoldable pub find : String → Members → Option Json
find key end = none
find key (member k v ms) = if str_eq k key then some v else find key ms

-- What is left of `d` after `d.pop(key, …)`.
unfoldable pub without : String → Members → Members
without key end = end
without key (member k v ms) =
    let rest = without key ms in if str_eq k key then ms else member k v rest

-- `d[key] = v`
unfoldable pub put_member : String → Json → Members → Members
put_member key v end = member key v end
put_member key v (member k u ms) =
    let rest = put_member key v ms in if str_eq k key then member k v ms else member k u rest

-- `d.update(e)`
unfoldable pub merge : Members → Members → Members
unfolding put_member
merge d end = d
merge d (member k v ms) = merge (put_member k v d) ms

-- Every key of the dictionary is the name of a parameter.
unfoldable pub has_only : List String → Members → Bool
has_only names end = true
has_only names (member k v ms) = one_of k names && has_only names ms

-- The text under a key.
unfoldable pub text_at : String → Members → Option String
unfolding find
text_at key ms = elim (find key ms) [ some (text s) ↦ some s | _ ↦ none ]
