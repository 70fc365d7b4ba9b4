-- ===== src/Notify.antt =====
-- pipeline/notify.py: the receiver of a target's messages, the pool of bot tokens, and the delivery
-- of a message. The calls of the Bot API are a parameter.
pub mod Delivery
pub mod Receivers
mod Samples
use moirax_asm.Prelude.{
  ℕ, suc, ◌+◌, Bool, true, false, not, ◌&&◌, ◌||◌, Option, none, some, List, [], ◌∷◌, ◌++◌,
  if◌then◌else◌, leb, ◌==◌, Text, text_eq, codes, mem, is_empty, is_lower, is_upper, is_digit, all,
  length, strip, lower, lstrip, split, starts_with, drop,
}
use moirax_asm.Prelude.Dict.{Dict, lookup, insert}

abbrev pub is_word : ℕ → Bool
is_word c = is_lower c || is_upper c || is_digit c || c == b'_'

abbrev pub between : ℕ → ℕ → Text → Bool
between lo hi s = leb lo (length s) && leb (length s) hi

abbrev pub without : ℕ → Text → Text
without c [] = []
without c (d ∷ s) = if d == c then s else d ∷ s

-- TELEGRAM_CHAT_RE
abbrev pub matches_chat_re : Text → Bool
matches_chat_re s =
    between 2 20 (without b'-' s) && all is_digit (without b'-' s)
    || between 4 64 (without b'@' s) && all is_word (without b'@' s)

-- _NUMERIC_RECEIVER_RE
abbrev pub matches_numeric_re : Text → Bool
matches_numeric_re s = not (is_empty (without b'-' s)) && all is_digit (without b'-' s)

unfoldable pub normalize_stripped : Text → Text
unfolding starts_with
normalize_stripped s =
    if not (matches_chat_re s)
    then []
    else if matches_numeric_re s
    then s
    else if starts_with s (codes "@")
    then s
    else b'@' ∷ s

unfoldable pub normalize_receiver : Text → Text
unfolding strip normalize_stripped
normalize_receiver raw = normalize_stripped (strip raw)

pub data Source : Type 0 where
  target_profile dashboard_config env disabled_by_profile no_source : Source

-- A profile's notifications: the value of telegram_enabled is `is False`, and telegram_chat.
pub record TargetNotifications : Type 0 where
  pub disabled : Bool
  pub chat : Text

-- The dashboard's configuration and the environment: the chat ids, the bot tokens, and the map from
-- the names of accounts to their numeric ids.
pub record Config : Type 0 where
  pub chat_id : Text
  pub env_chat_id : Text
  pub bot_token : Text
  pub env_tokens : Text
  pub receiver_map : Dict Text

abbrev account_name : Text → Text
unfolding strip lstrip lower
account_name k = lower (lstrip (λ c. c == b'@') (strip k))

map_into : Dict Text → Dict Text → Dict Text
unfolding strip lstrip lower insert
map_into names [] = names
map_into names ((k, v) ∷ raw) = map_into (insert (account_name k) (strip v) names) raw

unfoldable pub current_receiver_map : Dict Text → Dict Text
unfolding map_into
current_receiver_map raw = map_into [] raw

-- The first layer with a receiver.
unfoldable pub chosen : TargetNotifications → Config → Text × Source
unfolding strip
chosen n c =
    if not (is_empty (strip n.chat))
    then (strip n.chat, target_profile)
    else if not (is_empty (strip c.chat_id))
    then (strip c.chat_id, dashboard_config)
    else (strip c.env_chat_id, env)

abbrev pub non_empty : Option Text → Option Text
non_empty none = none
non_empty (some s) = if is_empty s then none else some s

abbrev pub mapped : Config → Text → Option Text
unfolding lookup lower current_receiver_map
mapped c chat = non_empty (lookup (lower (drop 1 chat)) (current_receiver_map c.receiver_map))

abbrev or_chat : Text → Option Text → Text
or_chat chat none = chat
or_chat chat (some id) = id

unfoldable pub resolve_chat_id : TargetNotifications → Config → Text × Source
unfolding chosen normalize_receiver starts_with current_receiver_map lookup lower
resolve_chat_id n c =
    let chat = normalize_receiver (chosen n c).0 in
    if n.disabled
    then ([], disabled_by_profile)
    else if is_empty chat
    then ([], no_source)
    else if starts_with chat (codes "@")
    then (or_chat chat (mapped c chat), (chosen n c).1)
    else (chat, (chosen n c).1)

-- The loop over the parts of TELEGRAM_BOT_TOKEN.
unfoldable pub add_tokens : List Text → List Text → List Text
unfolding strip mem
add_tokens pool [] = pool
add_tokens pool (part ∷ parts) =
    add_tokens
      (if is_empty (strip part) || mem (strip part) pool then pool else pool ++ strip part ∷ [])
      parts

unfoldable pub resolve_bot_token_pool : Config → List Text
unfolding strip starts_with add_tokens split
resolve_bot_token_pool c =
    let token = strip c.bot_token in
    add_tokens
      (if not (is_empty token) && not (starts_with token (codes "****")) then token ∷ [] else [])
      (split b',' c.env_tokens)

-- The notes of a send name a token by its place in the pool.
pub data Note : Type 0 where
  skipped rejected_now delivered_with : ℕ → Note

pub data Detail : Type 0 where
  unreachable : Detail
  refused : ℕ → Text → Detail

pub data Told : Type 0 where
  no_token all_rejected : Told
  notes : List Note → Option Detail → Told

-- The answer of a send, the tokens that are known to be invalid, and those that were used.
pub record Sent : Type 0 where
  pub is_sent : Bool
  pub told : Told
  pub rejected : List Text
  pub posted : List Text

-- s.add(x)
unfoldable pub add : List Text → Text → List Text
unfolding mem
add s x = if mem x s then s else s ++ x ∷ []

-- The end of the loop, or its `break`.
unfoldable pub undelivered : List Note → Option Detail → List Text → List Text → Sent
undelivered [] none rejected posted = record {
  is_sent = false;
  told = all_rejected;
  rejected = rejected;
  posted = posted;
}
undelivered ns detail rejected posted = record {
  is_sent = false;
  told = notes ns detail;
  rejected = rejected;
  posted = posted;
}

-- A note is added to a delivery only after others.
abbrev delivery_notes : ℕ → List Note → List Note
delivery_notes idx [] = []
delivery_notes idx (n ∷ ns) = n ∷ ns ++ delivered_with idx ∷ []

module _ (post : Text → ℕ × Text) where
  -- The loop over the pool; `idx` is the place of its first token.
  unfoldable pub send_loop : ℕ → List Note → List Text → List Text → List Text → Sent
  unfolding mem add undelivered
  send_loop idx ns rejected posted [] = undelivered ns none rejected posted
  send_loop idx ns rejected posted (token ∷ pool) =
      let (code, desc) = post token in
      let used = posted ++ token ∷ [] in
      let skip = send_loop (suc idx) (ns ++ skipped idx ∷ []) rejected posted pool in
      let rotate =
        send_loop (suc idx) (ns ++ rejected_now idx ∷ []) (add rejected token) used pool in
      if mem token rejected
      then skip
      else if code == 200
      then record {
        is_sent = true;
        told = notes (delivery_notes idx ns) none;
        rejected = rejected;
        posted = used;
      }
      else if code == 401
      then rotate
      else if code == 0
      then undelivered ns (some unreachable) rejected used
      else undelivered ns (some (refused code desc)) rejected used

  unfoldable pub send_with_pool : List Text → List Text → Sent
  unfolding send_loop
  send_with_pool rejected [] = record {
    is_sent = false;
    told = no_token;
    rejected = rejected;
    posted = [];
  }
  send_with_pool rejected (token ∷ pool) = send_loop 1 [] rejected [] (token ∷ pool)
