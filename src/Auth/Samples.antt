-- ===== src/Auth/Samples.antt =====
-- A store with one operator, over stand-ins for the cryptography, and the theorems on it.
use moirax_asm.Prelude.{
  ℕ, ◌+◌, ◌-◌, ◌≡◌, ◌↔◌, refl, ap, true, false, Option, none, some, List, [], ◌∷◌, ◌++◌, mem_ℕ,
  Text, codes, text_eq, arith,
}
use moirax_asm.Prelude.Dict.{lookup, insert, remove}
use moirax_asm.Auth.{
  Crypto, Db, hash_password, render, verify_password, session_ok, create_session, revoke_session,
  purge_expired,
}
use moirax_asm.Auth.Sessions.{
  Op, login, revoke, purge, run_op, run_ops, purge-session_ok, run_ops-session_ok,
}
use moirax_asm.Auth.Password.{IsLawful, verify-hash_password}

-- Each code moved beyond `$`.
abbrev shift : Text → Text
shift [] = []
shift (c ∷ t) = (c + 37) ∷ shift t

abbrev unshift : Text → Text
unshift [] = []
unshift (c ∷ t) = (c - 37) ∷ unshift t

abbrev first_code : Text → Option ℕ
first_code [] = none
first_code (c ∷ t) = some (c - 37)

abbrev crypto : Crypto
crypto = record {
  sha256 = λ t. t;
  scrypt = λ password salt n r p. some (password ++ salt);
  hex = shift;
  from_hex = λ t. some (unshift t);
  str = λ n. (n + 37) ∷ [];
  int = first_code;
}

unshift-shift : (t : Text) → unshift (shift t) ≡ t
unshift-shift [] = refl
unshift-shift (c ∷ t) = ground (arith, unshift-shift t)

shift_plain : (t : Text) → mem_ℕ 36 (shift t) ≡ false
shift_plain [] = refl
shift_plain (c ∷ t) = ground (arith, shift_plain t)

crypto-IsLawful : IsLawful crypto
crypto-IsLawful = record {
  from_hex-hex = λ t. ap (λ (s : Text). some s) (unshift-shift t);
  hex_plain = shift_plain;
  int-str = λ n. ground arith;
  str_plain = λ n. ground arith;
}

abbrev password : Text
password = codes "correct horse"

abbrev token : Text
token = codes "token"

abbrev db : Db
db = record {
  operator = none;
  sessions =
      (token, record { created_at = 0; last_seen = 5 })
      ∷ (codes "other", record { created_at = 0; last_seen = 0 })
      ∷ [];
}

verify-hash_password_example :
    (verify_password crypto
        (codes "wrong")
        (render crypto (codes "salt") (codes "correct horsesalt"))
      ≡ true)
    ↔ (some (codes "wrongsalt") ≡ some (codes "correct horsesalt"))
unfolding hash_password
verify-hash_password_example =
    verify-hash_password crypto crypto-IsLawful password (codes "wrong") (codes "salt")
      (render crypto (codes "salt") (codes "correct horsesalt")) refl

purge-session_ok_example :
    session_ok crypto true 2000 token (purge_expired 1000 db) ≡ session_ok crypto true 2000 token db
unfolding lookup text_eq
purge-session_ok_example = purge-session_ok crypto true 1000 2000 token db refl (omega arith)

abbrev others : List Op
others = login 10 (codes "new") ∷ revoke true (codes "other") ∷ purge 20 ∷ []

still_ok : session_ok crypto true 30 token (run_ops crypto others db) ≡ true
unfolding session_ok create_session revoke_session purge_expired lookup insert remove text_eq run_op
still_ok = refl

run_ops-session_ok_example : session_ok crypto true 30 token db ≡ true
unfolding lookup text_eq
run_ops-session_ok_example = run_ops-session_ok crypto true 30 token others db refl refl still_ok
