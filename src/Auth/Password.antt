-- ===== src/Auth/Password.antt =====
-- dashboard/authstore.py: the operator's password.
use moirax_asm.Prelude.{
  ℕ, ◌^◌, ◌≤◌, ◌≡◌, refl, ap, ◌∙◌, ◌↔◌, inl, inr, true, false, Option, none, some, List, [], ◌∷◌,
  ◌++◌, length, mem_ℕ, arith, Option-cases, Text, text_eq, text_eq_iff, split, split_part,
  split_end, codes,
}
use moirax_asm.Auth.{
  Crypto, Db, Operator, validate_new_password, render, hash_password, verify_password, verify_parts,
  verify_numbers, verify_bytes, compare_digest, has_row, create_operator, insert_operator,
  replace_operator_password, upsert_operator, check_operator_password, check_row,
}

-- Hexadecimal and decimal texts are read back, and hold no `$`.
pub record IsLawful (C : Crypto) : Type 0 where
  pub from_hex-hex : (t : Text) → C.from_hex (C.hex t) ≡ some t
  pub hex_plain : (t : Text) → mem_ℕ b'$' (C.hex t) ≡ false
  pub int-str : (n : ℕ) → C.int (C.str n) ≡ some n
  pub str_plain : (n : ℕ) → mem_ℕ b'$' (C.str n) ≡ false

pub validate_new_password_accepts :
    (password : Text)
    → (validate_new_password password ≡ none)
      ↔ ((mem_ℕ 0 password ≡ false) × (12 ≤ length password) × (length password ≤ 256))
unfolding validate_new_password
validate_new_password_accepts password = (λ h. ground arith, λ h. ground arith)

part :
    (xs ys : Text) {parts : List Text}
    → mem_ℕ b'$' xs ≡ false
    → split b'$' ys ≡ parts
    → split b'$' (xs ++ b'$' ∷ ys) ≡ xs ∷ parts
part xs ys h e = split_part b'$' xs ys h ∙ ap (λ (ps : List Text). xs ∷ ps) e

module _ (C : Crypto) (l : IsLawful C) where
  split-render :
      (salt dk : Text)
      → split b'$' (render C salt dk)
        ≡ codes "scrypt" ∷ C.str (2 ^ 14) ∷ C.str 8 ∷ C.str 1 ∷ C.hex salt ∷ C.hex dk ∷ []
  unfolding render
  split-render salt dk = part (codes "scrypt") _ refl (
      part (C.str (2 ^ 14)) _ (l.str_plain (2 ^ 14)) (
        part (C.str 8) _ (l.str_plain 8) (
          part (C.str 1) _ (l.str_plain 1) (
            part (C.hex salt) (C.hex dk) (l.hex_plain salt)
              (split_end b'$' (C.hex dk) (l.hex_plain dk))))))

  verify-render :
      (password salt dk : Text)
      → verify_password C password (render C salt dk)
        ≡ compare_digest C (C.scrypt password salt (2 ^ 14) 8 1) dk
  unfolding verify_password verify_parts verify_numbers verify_bytes text_eq
  verify-render password salt dk = rw (split-render salt dk) (
      rw (l.int-str (2 ^ 14), l.int-str 8, l.int-str 1, l.from_hex-hex salt, l.from_hex-hex dk)
        refl)

  compare_digest_iff :
      (o : Option Text) (dk : Text) → (compare_digest C o dk ≡ true) ↔ (o ≡ some dk)
  unfolding compare_digest
  compare_digest_iff none dk = (λ h. absurd (ground arith), λ h. absurd (ground arith))
  compare_digest_iff (some got) dk = (
    λ h. ap (λ (t : Text). some t) ((text_eq_iff got dk).0 h),
    λ h. (text_eq_iff got dk).1 (ground arith),
  )

  -- Given that hexadecimal and decimal texts are read back and hold no `$`, a stored hash accepts
  -- a password exactly if scrypt gives the same digest for it, with the same salt, as for the
  -- password that was hashed.
  pub verify-hash_password :
      (password other salt stored : Text)
      → hash_password C password salt ≡ some stored
      → (verify_password C other stored ≡ true)
        ↔ (C.scrypt other salt (2 ^ 14) 8 1 ≡ C.scrypt password salt (2 ^ 14) 8 1)
  unfolding hash_password
  verify-hash_password password other salt stored h =
      elim (Option-cases (C.scrypt password salt (2 ^ 14) 8 1)) [
        | inl e ↦ absurd (ground (arith, e))
        | inr (dk, e) ↦
            let q : stored ≡ render C salt dk = ground (arith, e) in
            rw (q, e)
              (rw (verify-render other salt dk)
                (compare_digest_iff (C.scrypt other salt (2 ^ 14) 8 1) dk))
      ]

  stored_accepts :
      (password salt stored : Text)
      → hash_password C password salt ≡ some stored
      → verify_password C password stored ≡ true
  stored_accepts password salt stored h =
      (verify-hash_password password password salt stored h).1 refl

  second_refused :
      (now : ℕ) (digest : Option Text) (d : Db) (o : Option Operator)
      → has_row o ≡ true
      → (insert_operator C now digest d o).1 ≡ d
  unfolding insert_operator
  second_refused now none d o h = refl
  second_refused now (some t) d none h = absurd (ground arith)
  second_refused now (some t) d (some o) h = refl

  inserted_accepts :
      (now : ℕ) (salt password : Text) (digest : Option Text) (d : Db) (o : Option Operator)
      → hash_password C password salt ≡ digest
      → (insert_operator C now digest d o).0 ≡ none
      → check_operator_password C true password (insert_operator C now digest d o).1 ≡ true
  unfolding insert_operator check_operator_password check_row
  inserted_accepts now salt password none d o e h = absurd (ground arith)
  inserted_accepts now salt password (some t) d none e h = stored_accepts password salt t e
  inserted_accepts now salt password (some t) d (some o) e h = absurd (ground arith)

  replaced_accepts :
      (now : ℕ) (salt password : Text) (digest : Option Text) (d : Db) (o : Option Operator)
      → hash_password C password salt ≡ digest
      → (upsert_operator C now digest d o).0 ≡ none
      → check_operator_password C true password (upsert_operator C now digest d o).1 ≡ true
  unfolding upsert_operator check_operator_password check_row
  replaced_accepts now salt password none d o e h = absurd (ground arith)
  replaced_accepts now salt password (some t) d none e h = stored_accepts password salt t e
  replaced_accepts now salt password (some t) d (some o) e h = stored_accepts password salt t e

  -- Given the same of the texts, the writes of the operator's row do this: a second operator is
  -- refused and changes nothing, and a write that is not refused makes the new password one that
  -- logs in.
  pub create_replace_operator :
      (now : ℕ) (salt password : Text) (d : Db)
      → (has_row d.operator ≡ true → (create_operator C now salt password d).1 ≡ d)
        × ((create_operator C now salt password d).0 ≡ none
            → check_operator_password C true password (create_operator C now salt password d).1
              ≡ true)
        × ((replace_operator_password C now salt password d).0 ≡ none
            → check_operator_password C true password
                (replace_operator_password C now salt password d).1
              ≡ true)
  unfolding create_operator replace_operator_password
  create_replace_operator now salt password d =
      elim (Option-cases (validate_new_password password)) [
        | inr (e, r) ↦
            rw (r, create_operator, replace_operator_password)
              (λ h. refl, λ h. absurd (ground arith), λ h. absurd (ground arith))
        | inl r ↦
            rw (r, create_operator, replace_operator_password)
              (
                second_refused now (hash_password C password salt) d d.operator,
                inserted_accepts now salt password (hash_password C password salt) d d.operator
                    refl,
                replaced_accepts now salt password (hash_password C password salt) d d.operator
                    refl,
              )
      ]
