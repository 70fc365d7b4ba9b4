-- ===== src/Notify/Receivers.antt =====
-- pipeline/notify.py: the map of the accounts' names, learned from the bot's updates, and the
-- delivery to a name. `updates_of` is getUpdates: an object, or `none` where the call fails.
use moirax_asm.Prelude.{
  ℕ, ◌≡◌, refl, Bool, true, false, not, ◌&&◌, ◌||◌, Option, none, some, List, [], ◌∷◌,
  if◌then◌else◌, ◌==◌, Text, codes, mem, is_empty, is_digit, all, strip, lower, lstrip, starts_with,
  drop, arith,
}
use moirax_asm.Prelude.Dict.{Dict, lookup, insert}
use moirax_asm.Prelude.Json.{Value, Fields, str, list, dict, get, is_truthy, items_of}
use moirax_asm.Notify.{
  Config, Sent, is_word, without, normalize_stripped, normalize_receiver, current_receiver_map,
  resolve_bot_token_pool, send_with_pool, mapped, non_empty,
}

abbrev is_at : ℕ → Bool
is_at c = c == b'@'

abbrev or_else : Option Value → Option Value → Option Value
or_else a b = if is_truthy a then a else b

abbrev chat_of : Option Value → Option Fields
chat_of (some (dict message)) = elim (get (codes "chat") message) [
  | some (dict chat) ↦ some chat
  | _ ↦ none
]
chat_of v = none

abbrev list_of : Option Value → List Value
list_of (some (list vs)) = items_of vs
list_of v = []

abbrev is_given : Option Value → Bool
is_given (some (list vs)) = true
is_given v = false

module _ (show : Value → Text) where
  -- str(chat.get(key) or "").strip()
  abbrev text_at : Text → Fields → Text
  unfolding strip get
  text_at key chat =
      if not (is_truthy (get key chat))
      then []
      else strip (elim (get key chat) [ some (str s) ↦ s | some v ↦ show v | none ↦ [] ])

  learn_one : Option Fields → Dict Text → Dict Text
  unfolding lower lstrip insert
  learn_one none learned = learned
  learn_one (some chat) learned =
      let uname = lower (lstrip is_at (text_at (codes "username") chat)) in
      let cid = text_at (codes "id") chat in
      if not (is_empty uname) && not (is_empty cid) then insert uname cid learned else learned

  unfoldable pub learn_updates : List Value → Dict Text → Dict Text
  unfolding learn_one text_at get
  learn_updates [] learned = learned
  learn_updates (dict upd ∷ rest) learned = learn_updates rest (
      learn_one (chat_of (or_else (get (codes "message") upd) (get (codes "channel_post") upd)))
        learned)
  learn_updates (v ∷ rest) learned = learn_updates rest learned

  -- The first token whose call answers with updates.
  unfoldable pub learn_loop : (Text → Option Fields) → List Text → List Text → Dict Text → Dict Text
  unfolding learn_updates mem get
  learn_loop updates_of rejected [] learned = learned
  learn_loop updates_of rejected (token ∷ pool) learned =
      let on = learn_loop updates_of rejected pool learned in
      let answered : Dict Text = elim (updates_of token) [
        | none ↦ on
        | some doc ↦
            let more = learn_updates (list_of (get (codes "result") doc)) learned in
            if is_given (get (codes "result") doc)
            then more
            else learn_loop updates_of rejected pool more
      ] in
      if mem token rejected then on else answered

  -- {**old, **new}
  unfoldable pub merged_map : Dict Text → Dict Text → Dict Text
  unfolding insert
  merged_map old [] = old
  merged_map old ((k, v) ∷ new) = merged_map (insert k v old) new

  unfoldable pub learn_receiver_map : (Text → Option Fields) → Config → List Text → Dict Text
  unfolding current_receiver_map learn_loop merged_map resolve_bot_token_pool
  learn_receiver_map updates_of c rejected =
      merged_map (current_receiver_map c.receiver_map)
        (learn_loop updates_of rejected (resolve_bot_token_pool c) [])

  abbrev or_learned : Option Text → Option Text → Option Text
  or_learned none learned = non_empty learned
  or_learned (some id) learned = some id

  -- The direct attempt, after one to the id of the name.
  deliver_direct : (Text → Text → ℕ × Text) → List Text → Text → Sent → Sent
  unfolding send_with_pool
  deliver_direct post pool chat first =
      if first.is_sent then first else send_with_pool (post chat) first.rejected pool

  unfoldable pub deliver_username_aware :
      (Text → Option Fields) → (Text → Text → ℕ × Text) → Config → List Text → Text → Sent
  unfolding send_with_pool resolve_bot_token_pool learn_receiver_map deliver_direct starts_with
      current_receiver_map lookup lower
  deliver_username_aware updates_of post c rejected chat =
      let pool = resolve_bot_token_pool c in
      let direct = send_with_pool (post chat) rejected pool in
      let learned = lookup (lower (drop 1 chat)) (learn_receiver_map updates_of c rejected) in
      if not (starts_with chat (codes "@"))
      then direct
      else elim (or_learned (mapped c chat) learned) [
        | none ↦ direct
        | some id ↦ deliver_direct post pool chat (send_with_pool (post id) rejected pool)
      ]

-- The characters that a receiver may hold.
abbrev pub is_plain : ℕ → Bool
is_plain c = is_word c || c == b'-' || c == b'@'

plain_digits : (s : Text) → all is_digit s ≡ true → all is_plain s ≡ true
plain_digits [] h = refl
plain_digits (c ∷ s) h = ground (arith, plain_digits s)

plain_words : (s : Text) → all is_word s ≡ true → all is_plain s ≡ true
plain_words [] h = refl
plain_words (c ∷ s) h = ground (arith, plain_words s)

plain_without :
    (d : ℕ) (s : Text)
    → is_plain d ≡ true
    → all is_plain (without d s) ≡ true
    → all is_plain s ≡ true
plain_without d [] p h = refl
plain_without d (c ∷ s) p h = ground arith

-- A receiver, of whatever text, holds letters, digits, `_`, `-` and `@` only: nothing in it can end
-- the parameter that it is sent in.
pub normalize_receiver_plain : (raw : Text) → all is_plain (normalize_receiver raw) ≡ true
unfolding normalize_receiver normalize_stripped
normalize_receiver_plain raw =
    let s = strip raw in
    ground (
      arith,
      plain_digits (without b'-' s),
      plain_words (without b'@' s),
      plain_without b'-' s,
      plain_without b'@' s,
    )
