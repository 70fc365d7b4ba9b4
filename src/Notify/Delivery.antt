-- ===== src/Notify/Delivery.antt =====
-- pipeline/notify.py, `_send_with_pool`: the rotation over the tokens.
use moirax_asm.Prelude.{
  ℕ, suc, ◌≡◌, refl, Bool, true, false, not, ◌||◌, Option, none, some, List, [], ◌∷◌, ◌++◌,
  if◌then◌else◌, ◌==◌, Text, text_eq_iff, is_empty, strip, split, mem, mem-append, distinct,
  distinct-append, arith,
}
use moirax_asm.Notify.{
  Note, Detail, unreachable, refused, skipped, rejected_now, Told, all_rejected, Sent, send_loop,
  send_with_pool, undelivered, add, add_tokens, resolve_bot_token_pool, Config,
}

mem_add : (x : Text) (s : List Text) (t : Text) → mem x (add s t) ≡ (mem x s || mem x (t ∷ []))
unfolding add mem
mem_add x s t = ground (arith, mem-append x s t, text_eq_iff x t)

module _ (post : Text → ℕ × Text) where
  -- Whether the rotation passes over the token: it is known to be invalid, or is refused as such.
  abbrev pub is_invalid : List Text → Text → Bool
  is_invalid rejected t = mem t rejected || (post t).0 == 401

  -- The first token that is not passed over accepts the message.
  abbrev pub first_accepts : List Text → List Text → Bool
  first_accepts rejected [] = false
  first_accepts rejected (t ∷ pool) =
      let more = first_accepts rejected pool in
      if is_invalid rejected t then more else (post t).0 == 200

  first_accepts_add :
      (rejected pool : List Text) (t : Text)
      → mem t pool ≡ false
      → first_accepts (add rejected t) pool ≡ first_accepts rejected pool
  unfolding mem
  first_accepts_add rejected [] t m = refl
  first_accepts_add rejected (u ∷ pool) t m = ground (
    arith,
    first_accepts_add rejected pool t,
    mem_add u rejected t,
    text_eq_iff u t,
    text_eq_iff t u,
  )

  undelivered_unsent :
      (ns : List Note) (d : Option Detail) (rejected posted : List Text)
      → (undelivered ns d rejected posted).is_sent ≡ false
  unfolding undelivered
  undelivered_unsent ns d rejected posted = ground arith

  send_loop_accepts :
      (idx : ℕ) (ns : List Note) (rejected posted pool : List Text)
      → distinct pool ≡ true
      → (send_loop post idx ns rejected posted pool).is_sent ≡ first_accepts rejected pool
  unfolding send_loop mem
  send_loop_accepts idx ns rejected posted [] d = undelivered_unsent ns none rejected posted
  send_loop_accepts idx ns rejected posted (t ∷ pool) d = ground (
    arith,
    send_loop_accepts (suc idx) (ns ++ skipped idx ∷ []) rejected posted pool,
    send_loop_accepts (suc idx) (ns ++ rejected_now idx ∷ []) (add rejected t) (posted ++ t ∷ [])
        pool,
    first_accepts_add rejected pool t,
    undelivered_unsent ns (some unreachable) rejected (posted ++ t ∷ []),
    undelivered_unsent ns (some (refused (post t).0 (post t).1)) rejected (posted ++ t ∷ []),
  )

  undelivered_fields :
      (ns : List Note) (d : Option Detail) (rejected posted : List Text)
      → ((undelivered ns d rejected posted).rejected ≡ rejected)
        × ((undelivered ns d rejected posted).posted ≡ posted)
  unfolding undelivered
  undelivered_fields [] none rejected posted = (refl, refl)
  undelivered_fields [] (some d) rejected posted = (refl, refl)
  undelivered_fields (n ∷ ns) d rejected posted = (refl, refl)

  -- What a send leaves of a token: whether it is known to be invalid, and whether it was used.
  record Leaves (t : Text) (rejected posted : List Text) (s : Sent) : Type 0 where
    kept : mem t rejected ≡ true → mem t s.rejected ≡ true
    unknown : mem t s.posted ≡ true → (mem t posted || not (mem t rejected)) ≡ true
    learned :
        mem t s.posted ≡ true
        → ((post t).0 == 401) ≡ true
        → (mem t posted || mem t s.rejected) ≡ true

  send_loop-Leaves :
      (t : Text) (idx : ℕ) (ns : List Note) (rejected posted pool : List Text)
      → Leaves t rejected posted (send_loop post idx ns rejected posted pool)
  unfolding send_loop mem
  send_loop-Leaves t idx ns rejected posted [] =
      let f = undelivered_fields ns none rejected posted in
      record {
        kept = λ h. ground (arith, f.0);
        unknown = λ h. ground (arith, f.1);
        learned = λ h k. ground (arith, f.1);
      }
  send_loop-Leaves t idx ns rejected posted (u ∷ pool) =
      let skip = send_loop-Leaves t (suc idx) (ns ++ skipped idx ∷ []) rejected posted pool in
      let rotate =
        send_loop-Leaves t (suc idx) (ns ++ rejected_now idx ∷ []) (add rejected u)
          (posted ++ u ∷ []) pool in
      let down = undelivered_fields ns (some unreachable) rejected (posted ++ u ∷ []) in
      let no =
        undelivered_fields ns (some (refused (post u).0 (post u).1)) rejected (posted ++ u ∷ []) in
      let used = mem-append t posted u in
      let known = mem_add t rejected u in
      let same = text_eq_iff t u in
      record {
        kept = λ h. ground (arith, skip.kept, rotate.kept, down.0, no.0, known);
        unknown =
            λ h. ground (arith, skip.unknown, rotate.unknown, down.1, no.1, used, known, same);
        learned = λ h k.
            ground
              (arith, skip.learned, rotate.learned, rotate.kept, down.1, no.1, used, known, same);
      }

  send_with_pool-Leaves :
      (t : Text) (rejected pool : List Text)
      → Leaves t rejected [] (send_with_pool post rejected pool)
  unfolding send_with_pool mem
  send_with_pool-Leaves t rejected [] = record {
    kept = λ h. h;
    unknown = λ h. cc;
    learned = λ h k. cc;
  }
  send_with_pool-Leaves t rejected (u ∷ pool) = send_loop-Leaves t 1 [] rejected [] (u ∷ pool)

  send_with_pool_accepts :
      (rejected pool : List Text)
      → distinct pool ≡ true
      → (send_with_pool post rejected pool).is_sent ≡ first_accepts rejected pool
  unfolding send_with_pool
  send_with_pool_accepts rejected [] d = refl
  send_with_pool_accepts rejected (t ∷ pool) d = send_loop_accepts 1 [] rejected [] (t ∷ pool) d

add_tokens-distinct :
    (pool parts : List Text) → distinct pool ≡ true → distinct (add_tokens pool parts) ≡ true
unfolding add_tokens
add_tokens-distinct pool [] d = d
add_tokens-distinct pool (part ∷ parts) d =
    add_tokens-distinct
      (if is_empty (strip part) || mem (strip part) pool then pool else pool ++ strip part ∷ [])
      parts (ground (arith, distinct-append pool (strip part)))

-- The pool of tokens of any configuration: a message is sent exactly if the first token that is
-- neither known to be invalid nor refused as such accepts it. No token before it stops the send.
pub send_with_pool-delivers :
    (c : Config) (post : Text → ℕ × Text) (rejected : List Text)
    → (send_with_pool post rejected (resolve_bot_token_pool c)).is_sent
      ≡ first_accepts post rejected (resolve_bot_token_pool c)
unfolding resolve_bot_token_pool mem
send_with_pool-delivers c post rejected =
    send_with_pool_accepts post rejected (resolve_bot_token_pool c)
      (add_tokens-distinct _ (split b',' c.env_tokens) (ground arith))

-- The tokens that are known to be invalid after further sends, each with its answers and its pool.
unfoldable pub rejected_after : List ((Text → ℕ × Text) × List Text) → List Text → List Text
rejected_after [] rejected = rejected
rejected_after ((post, pool) ∷ sends) rejected =
    rejected_after sends (send_with_pool post rejected pool).rejected

rejected_after-keeps :
    (sends : List ((Text → ℕ × Text) × List Text)) (rejected : List Text) (t : Text)
    → mem t rejected ≡ true
    → mem t (rejected_after sends rejected) ≡ true
unfolding rejected_after
rejected_after-keeps [] rejected t h = h
rejected_after-keeps ((post, pool) ∷ sends) rejected t h =
    rejected_after-keeps sends (send_with_pool post rejected pool).rejected t
      ((send_with_pool-Leaves post t rejected pool).kept h)

-- A token that a send uses and finds to be invalid is used by no send that comes later, whatever
-- sends come between and whatever the pools are.
pub send_with_pool-avoids :
    (post later : Text → ℕ × Text) (rejected pool next_pool : List Text)
    (between : List ((Text → ℕ × Text) × List Text)) (t : Text)
    → mem t (send_with_pool post rejected pool).posted ≡ true
    → ((post t).0 == 401) ≡ true
    → mem t
        (send_with_pool later
          (rejected_after between (send_with_pool post rejected pool).rejected)
          next_pool).posted
      ≡ false
unfolding mem
send_with_pool-avoids post later rejected pool next_pool between t used invalid =
    let first = send_with_pool-Leaves post t rejected pool in
    let known = rejected_after between (send_with_pool post rejected pool).rejected in
    let second = send_with_pool-Leaves later t known next_pool in
    ground (
      arith,
      first.learned used invalid,
      rejected_after-keeps between (send_with_pool post rejected pool).rejected t,
      second.unknown,
    )

abbrev pub is_told : Told → Bool
is_told all_rejected = false
is_told told = true

undelivered_told :
    (ns : List Note) (d : Detail) (rejected posted : List Text)
    → is_told (undelivered ns (some d) rejected posted).told ≡ true
unfolding undelivered
undelivered_told [] d rejected posted = refl
undelivered_told (n ∷ ns) d rejected posted = refl

send_loop_told :
    (post : Text → ℕ × Text) (idx : ℕ) (n : Note) (ns : List Note)
    (rejected posted pool : List Text)
    → is_told (send_loop post idx (n ∷ ns) rejected posted pool).told ≡ true
unfolding send_loop
send_loop_told post idx n ns rejected posted [] = unfold undelivered in refl
send_loop_told post idx n ns rejected posted (t ∷ pool) = ground (
  arith,
  send_loop_told post (suc idx) n (ns ++ skipped idx ∷ []) rejected posted pool,
  send_loop_told post (suc idx) n (ns ++ rejected_now idx ∷ []) (add rejected t) (posted ++ t ∷ [])
      pool,
  undelivered_told (n ∷ ns) unreachable rejected (posted ++ t ∷ []),
  undelivered_told (n ∷ ns) (refused (post t).0 (post t).1) rejected (posted ++ t ∷ []),
)

-- The answer that all tokens were rejected is never given: each token leaves a note, a detail or a
-- delivery.
pub send_with_pool_told :
    (post : Text → ℕ × Text) (rejected pool : List Text)
    → is_told (send_with_pool post rejected pool).told ≡ true
unfolding send_with_pool send_loop mem
send_with_pool_told post rejected [] = refl
send_with_pool_told post rejected (t ∷ pool) = ground (
  arith,
  send_loop_told post 2 (skipped 1) [] rejected [] pool,
  send_loop_told post 2 (rejected_now 1) [] (add rejected t) (t ∷ []) pool,
  undelivered_told [] unreachable rejected (t ∷ []),
  undelivered_told [] (refused (post t).0 (post t).1) rejected (t ∷ []),
)
