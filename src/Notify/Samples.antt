-- ===== src/Notify/Samples.antt =====
-- Two tokens, the first of which is invalid, and the theorems on them.
use moirax_asm.Prelude.{
  ℕ, ◌≡◌, refl, true, false, List, [], ◌∷◌, if◌then◌else◌, ◌==◌, Text, text_eq, codes, mem,
}
use moirax_asm.Notify.{Config, send_with_pool, resolve_bot_token_pool}
use moirax_asm.Notify.Delivery.{
  first_accepts, send_with_pool-delivers, send_with_pool-avoids, rejected_after,
}

abbrev post : Text → ℕ × Text
post t = if text_eq t (codes "old") then (401, []) else (200, [])

abbrev pool : List Text
pool = codes "old" ∷ codes "new" ∷ []

abbrev config : Config
config = record {
  chat_id = codes "jack";
  env_chat_id = [];
  bot_token = codes "old";
  env_tokens = codes "old, new";
  receiver_map = [];
}

send_with_pool-delivers_example :
    (send_with_pool post [] (resolve_bot_token_pool config)).is_sent
    ≡ first_accepts post [] (resolve_bot_token_pool config)
send_with_pool-delivers_example = send_with_pool-delivers config post []

used : mem (codes "old") (send_with_pool post [] pool).posted ≡ true
unfolding send_with_pool text_eq mem
used = refl

refused : ((post (codes "old")).0 == 401) ≡ true
unfolding text_eq
refused = refl

send_with_pool-avoids_example :
    mem
      (codes "old")
      (send_with_pool post
        (rejected_after ((post, pool) ∷ []) (send_with_pool post [] pool).rejected)
        pool).posted
    ≡ false
send_with_pool-avoids_example =
    send_with_pool-avoids post post [] pool pool ((post, pool) ∷ []) (codes "old") used refused
