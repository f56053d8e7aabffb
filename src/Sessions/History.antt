-- ===== src/Sessions/History.antt =====
-- load_history: what the model sees of a session.
use pearl_ai.Sessions.Machine.{Host}
use pearl_ai.Sessions.Decode.{State}
use pearl_ai.Sessions.Manager.{load_history, safe_chars}
use pearl_ai.Sessions.Table.{Table, Represents, get_session-answer}
use pearl_ai.Sessions.{
  SessionRecord, SessionMessage, ApiMessage, api_message, last_messages, returned,
}
use pearl_ai.Base.{
  String, ◌≡◌, refl, ℕ, List, Option, [], arith, drop, false, length, map, one_of, some, str_eq,
  suc, true, zero, ◌-◌, ◌∷◌, last_few, ◌==◌, if◌then◌else◌, ap, leb, none, ◌++◌,
}

-- A message as the model sees it: an internal role reads as that of the assistant, any other one as it is.
abbrev pub Shows : SessionMessage → ApiMessage → Type 0
Shows m a =
    (a.content ≡ m.content)
    × (one_of m.role ("agent" ∷ "summary" ∷ []) ≡ true → a.role ≡ "assistant")
    × (one_of m.role ("agent" ∷ "summary" ∷ []) ≡ false → a.role ≡ m.role)

abbrev pub AllShow : List SessionMessage → List ApiMessage → Type 0
AllShow [] [] = Unit
AllShow (m ∷ ms) (a ∷ rest) = Shows m a × AllShow ms rest
AllShow _ _ = ⊥

-- How many of `n` messages are kept: a limit of 0 is none.
abbrev pub kept : Option ℕ → ℕ → ℕ
kept (some (suc k)) n = if leb n (suc k) then n else suc k
kept _ n = n

-- The history is the end of the messages.
pub record IsHistory (limit : Option ℕ) (ms : List SessionMessage) (out : List ApiMessage)
    : Type 0 where
  pub front : List SessionMessage
  pub back : List SessionMessage
  pub cut : ms ≡ front ++ back
  pub as_many : length back ≡ kept limit (length ms)
  pub shown : AllShow back out

take-drop {ℓ} : {A : Type ℓ} (n : ℕ) (xs : List A) → (front : List A) × (xs ≡ front ++ drop n xs)
take-drop zero xs = ([], refl)
take-drop (suc n) [] = ([], refl)
take-drop (suc n) (x ∷ xs) = let (front, e) = take-drop n xs in (x ∷ front, ap (λ ys. x ∷ ys) e)

length-drop {ℓ} : {A : Type ℓ} (n : ℕ) (xs : List A) → length (drop n xs) ≡ length xs - n
length-drop zero xs = omega arith
length-drop (suc n) [] = omega arith
length-drop (suc n) (x ∷ xs) = omega (arith, length-drop n xs)

api_message-Shows : (m : SessionMessage) → Shows m (api_message m)
unfolding api_message
api_message-Shows m = (refl, λ h. rw h refl, λ h. rw h refl)

api_messages-AllShow : (ms : List SessionMessage) → AllShow ms (map api_message ms)
api_messages-AllShow [] = tt
api_messages-AllShow (m ∷ ms) = (api_message-Shows m, api_messages-AllShow ms)

last_messages-IsHistory :
    (limit : Option ℕ) (ms : List SessionMessage)
    → IsHistory limit ms (map api_message (last_messages limit ms))
unfolding last_messages
last_messages-IsHistory none ms = record {
  front = [];
  back = ms;
  cut = refl;
  as_many = refl;
  shown = api_messages-AllShow ms;
}
last_messages-IsHistory (some zero) ms = record {
  front = [];
  back = ms;
  cut = refl;
  as_many = refl;
  shown = api_messages-AllShow ms;
}
last_messages-IsHistory (some (suc n)) ms =
    let few = last_few (suc n) ms in
    let z : (suc n == 0) ≡ false = ground arith in
    let cut = take-drop (length ms - suc n) ms in
    rw z (record {
      front = cut.0;
      back = few;
      cut = cut.1;
      as_many = ground (arith, length-drop (length ms - suc n) ms);
      shown = api_messages-AllShow few;
    })

module _ (host : Host) (st : State host) (t : Table) (id : String) (r : SessionRecord) where
  -- The history of a known session is the end of its messages, in their order: the last `n` of them under a
  -- limit `n` other than 0, or all if there are no more, and all of them with no limit or a limit of 0. A
  -- message has its content and the role it was said in, but an agent or a summary speaks as the assistant.
  -- Nothing is changed.
  pub load_history-recent :
      (limit : Option ℕ)
      → Represents host st t
      → str_eq (safe_chars host id) id ≡ true
      → t id ≡ some r
      → (out : List ApiMessage) × (load_history host id limit st ≡ (returned out, st))
        × IsHistory limit r.messages out
  unfolding load_history
  load_history-recent limit rep b e = (
    map api_message (last_messages limit r.messages),
    rw (get_session-answer host st t id rep, b, e) refl,
    last_messages-IsHistory limit r.messages,
  )
