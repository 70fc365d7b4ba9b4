-- ===== src/Auth.antt =====
-- dashboard/authstore.py: the operator's password and sessions. The random source, SHA-256, scrypt
-- and the hex of `bytes` are parameters. The clock is in microseconds. A lock makes an operation
-- one step, and `up` says whether the database answers during it.
pub mod Sessions
pub mod Password
mod Samples
use moirax_asm.Prelude.{
  ℕ, zero, suc, ◌+◌, ◌-◌, ◌*◌, ◌/◌, ◌%◌, ◌^◌, ◌≤◌, Bool, true, false, not, ◌&&◌, ◌||◌, Option, none,
  some, List, [], ◌∷◌, ◌++◌, length, filter, if◌then◌else◌, ltb, leb, ◌==◌, mem_ℕ, Text, text_eq,
  is_empty, is_digit, split, codes,
}
use moirax_asm.Prelude.Dict.{Dict, lookup, insert, remove}

abbrev pub min_password_len : ℕ
min_password_len = 12

abbrev pub max_password_len : ℕ
max_password_len = 256

-- IDLE_SECONDS
abbrev pub idle : ℕ
idle = 15 * 60 * 1000000

-- What the module uses of `hashlib`, `secrets` and `bytes`; bytes are texts.
pub record Crypto : Type 0 where
  pub sha256 : Text → Text
  -- The password, the salt, and n, r and p; `none` for parameters that are refused.
  pub scrypt : Text → Text → ℕ → ℕ → ℕ → Option Text
  pub hex : Text → Text
  pub from_hex : Text → Option Text
  -- str(n), and int(text)
  pub str : ℕ → Text
  pub int : Text → Option ℕ

pub record Operator : Type 0 where
  pub password_hash : Text
  pub created_at : ℕ

pub record Session : Type 0 where
  pub created_at : ℕ
  pub last_seen : ℕ

-- The table `operator` has one row at most, and `sessions` is keyed by the token's digest.
pub record Db : Type 0 where
  pub operator : Option Operator
  pub sessions : Dict Session

pub data Refusal : Type 0 where
  illegal too_short too_long : Refusal
  operator_exists : Refusal
  hash_failed : Refusal

unfoldable pub validate_new_password : Text → Option Refusal
validate_new_password password =
    if mem_ℕ 0 password
    then some illegal
    else if ltb (length password) min_password_len
    then some too_short
    else if ltb max_password_len (length password)
    then some too_long
    else none

abbrev has_row : Option Operator → Bool
has_row none = false
has_row (some o) = true

unfoldable pub has_operator : Bool → Db → Bool
has_operator up d = if up then has_row d.operator else false

-- A clock that was set back gives a difference of 0, where the code has one below 0: each is
-- within the limit.
abbrev pub is_live : ℕ → Option Session → Bool
is_live now none = false
is_live now (some s) = leb (now - s.last_seen) idle

abbrev before_dollar : Text → Text → Text
before_dollar s t = s ++ b'$' ∷ t

module _ (C : Crypto) where
  -- scrypt$n$r$p$salt$digest
  unfoldable pub render : Text → Text → Text
  render salt dk = before_dollar (codes "scrypt") (
      before_dollar (C.str (2 ^ 14))
        (before_dollar (C.str 8) (before_dollar (C.str 1) (before_dollar (C.hex salt) (C.hex dk)))))

  -- `salt` is what `secrets.token_bytes(16)` gives.
  unfoldable pub hash_password : Text → Text → Option Text
  unfolding render
  hash_password password salt = elim (C.scrypt password salt (2 ^ 14) 8 1) [
    | none ↦ none
    | some dk ↦ some (render salt dk)
  ]

  compare_digest : Option Text → Text → Bool
  compare_digest none expected = false
  compare_digest (some got) expected = text_eq got expected

  verify_bytes : Text → ℕ → ℕ → ℕ → Option Text → Option Text → Bool
  unfolding compare_digest
  verify_bytes password n r p (some salt) (some expected) =
      compare_digest (C.scrypt password salt n r p) expected
  verify_bytes password n r p salt expected = false

  verify_numbers : Text → Option ℕ → Option ℕ → Option ℕ → Text → Text → Bool
  unfolding verify_bytes
  verify_numbers password (some n) (some r) (some p) salt_hex dk_hex =
      if ltb (2 ^ 16) n || ltb 16 r || ltb 4 p
      then false
      else verify_bytes password n r p (C.from_hex salt_hex) (C.from_hex dk_hex)
  verify_numbers password n r p salt_hex dk_hex = false

  verify_parts : Text → List Text → Bool
  unfolding verify_numbers
  verify_parts password (kind ∷ n ∷ r ∷ p ∷ salt_hex ∷ dk_hex ∷ []) =
      if not (text_eq kind (codes "scrypt"))
      then false
      else verify_numbers password (C.int n) (C.int r) (C.int p) salt_hex dk_hex
  verify_parts password parts = false

  unfoldable pub verify_password : Text → Text → Bool
  unfolding verify_parts
  verify_password password stored = verify_parts password (split b'$' stored)

  -- A refusal, or the database after the write.
  insert_operator : ℕ → Option Text → Db → Option Operator → Option Refusal × Db
  insert_operator now none d o = (some hash_failed, d)
  insert_operator now (some digest) d (some o) = (some operator_exists, d)
  insert_operator now (some digest) d none =
      (none, record d { operator = some (record { password_hash = digest; created_at = now }) })

  unfoldable pub create_operator : ℕ → Text → Text → Db → Option Refusal × Db
  unfolding insert_operator
  create_operator now salt password d = elim (validate_new_password password) [
    | some e ↦ (some e, d)
    | none ↦ insert_operator now (hash_password password salt) d d.operator
  ]

  upsert_operator : ℕ → Option Text → Db → Option Operator → Option Refusal × Db
  upsert_operator now none d o = (some hash_failed, d)
  upsert_operator now (some digest) d (some o) =
      (none, record d { operator = some (record o { password_hash = digest }) })
  upsert_operator now (some digest) d none =
      (none, record d { operator = some (record { password_hash = digest; created_at = now }) })

  unfoldable pub replace_operator_password : ℕ → Text → Text → Db → Option Refusal × Db
  unfolding upsert_operator
  replace_operator_password now salt password d = elim (validate_new_password password) [
    | some e ↦ (some e, d)
    | none ↦ upsert_operator now (hash_password password salt) d d.operator
  ]

  check_row : Text → Option Operator → Bool
  check_row password none = false
  check_row password (some o) = verify_password password o.password_hash

  unfoldable pub check_operator_password : Bool → Text → Db → Bool
  unfolding check_row
  check_operator_password up password d = if up then check_row password d.operator else false

  -- `raw` is what `secrets.token_urlsafe(32)` gives.
  unfoldable pub create_session : ℕ → Text → Db → Db
  create_session now raw d = record d {
    sessions = insert (C.sha256 raw) (record { created_at = now; last_seen = now }) d.sessions;
  }

  unfoldable pub session_ok : Bool → ℕ → Text → Db → Bool
  session_ok up now raw d =
      if is_empty raw || ltb 128 (length raw)
      then false
      else if not up
      then false
      else is_live now (lookup (C.sha256 raw) d.sessions)

  set_last_seen : ℕ → Text → Option Session → Db → Bool × Db
  set_last_seen now digest none d = (false, d)
  set_last_seen now digest (some s) d =
      (true, record d { sessions = insert digest (record s { last_seen = now }) d.sessions })

  -- The update of `touch_session`, and whether it found its row.
  unfoldable pub update_last_seen : ℕ → Text → Db → Bool × Db
  unfolding set_last_seen
  update_last_seen now raw d = set_last_seen now (C.sha256 raw) (lookup (C.sha256 raw) d.sessions) d

  -- The check and the update each hold the lock: `between` is what other requests do between them.
  -- `up` and `checked` are the database and the clock of the check.
  unfoldable pub touch_session : Bool → ℕ → (Db → Db) → Bool → ℕ → Text → Db → Bool × Db
  touch_session up checked between still_up now raw d =
      if not (session_ok up checked raw d)
      then (false, between d)
      else if not still_up
      then (false, between d)
      else update_last_seen now raw (between d)

  unfoldable pub revoke_session : Bool → Text → Db → Db
  revoke_session up raw d =
      if is_empty raw || not up then d else record d { sessions = remove (C.sha256 raw) d.sessions }

unfoldable pub revoke_all_sessions : Db → Db
revoke_all_sessions d = record d { sessions = [] }

-- DELETE FROM sessions WHERE last_seen < cutoff. While the clock is below the idle time the
-- cutoff is negative, or 0 here: no row is below either.
unfoldable pub purge_expired : ℕ → Db → Db
purge_expired now d = record d {
  sessions = filter (λ row. not (ltb row.1.last_seen (now - idle))) d.sessions;
}
