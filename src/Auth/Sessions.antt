-- ===== src/Auth/Sessions.antt =====
-- dashboard/authstore.py: how long a session lives. Its operations are ordered as they take the
-- lock; `touch_session` takes it twice.
use moirax_asm.Prelude.{
  ℕ, ◌-◌, ◌≤◌, ◌≡◌, refl, ◌∙◌, ◌⊎◌, inl, inr, Bool, true, false, not, ◌&&◌, Option, none, some,
  is_none, List, [], ◌∷◌, all, leb, ltb, length, arith, Text, text_eq, text_eq_refl, is_empty,
}
use moirax_asm.Prelude.Dict.{
  lookup, lookup-insert, lookup-remove, unique, unique-insert, unique-remove, unique-filter,
  lookup-filter, kept,
}
use moirax_asm.Auth.{
  Crypto, Db, Session, idle, is_live, session_ok, create_session, update_last_seen, set_last_seen,
  touch_session, revoke_session, revoke_all_sessions, purge_expired, create_operator,
  replace_operator_password, insert_operator, upsert_operator,
}

-- What is done while the lock is held; the last two write the operator's row.
pub data Op : Type 0 where
  login : ℕ → Text → Op
  update : ℕ → Text → Op
  revoke : Bool → Text → Op
  revoke_all : Op
  purge : ℕ → Op
  create replace : ℕ → Text → Text → Op

-- `purge_expired` removes only sessions that are refused from then on.
purge_lem :
    (now later : ℕ) (o : Option Session)
    → now ≤ later
    → is_live later (kept (λ s. not (ltb s.last_seen (now - idle))) o) ≡ is_live later o
purge_lem now later none h = refl
purge_lem now later (some s) h = ground arith

module _ (C : Crypto) where
  row_of : Text → Db → Option Session
  row_of raw d = lookup (C.sha256 raw) d.sessions

  -- `purge_expired` changes no answer: the sessions that it removes are refused from then on. In the
  -- table no digest stands twice.
  pub purge-session_ok :
      (up : Bool) (now later : ℕ) (raw : Text) (d : Db)
      → unique d.sessions ≡ true
      → now ≤ later
      → session_ok C up later raw (purge_expired now d) ≡ session_ok C up later raw d
  unfolding session_ok purge_expired
  purge-session_ok up now later raw d u h =
      rw
        (lookup-filter (λ (s : Session). not (ltb s.last_seen (now - idle))) (C.sha256 raw)
          d.sessions u)
        (rw (purge_lem now later (lookup (C.sha256 raw) d.sessions) h) refl)

  unfoldable pub run_op : Op → Db → Db
  run_op (login now raw) d = create_session C now raw d
  run_op (update now raw) d = (update_last_seen C now raw d).1
  run_op (revoke up raw) d = revoke_session C up raw d
  run_op revoke_all d = revoke_all_sessions d
  run_op (purge now) d = purge_expired now d
  run_op (create now salt password) d = (create_operator C now salt password d).1
  run_op (replace now salt password) d = (replace_operator_password C now salt password d).1

  abbrev pub run_ops : List Op → Db → Db
  run_ops [] d = d
  run_ops (op ∷ ops) d = run_ops ops (run_op op d)

  -- An operation that does not log in or update the session of `raw`.
  abbrev pub spares : Text → Op → Bool
  spares raw (login now other) = not (text_eq (C.sha256 other) (C.sha256 raw))
  spares raw (update now other) = not (text_eq (C.sha256 other) (C.sha256 raw))
  spares raw op = true

  create_operator-sessions :
      (now : ℕ) (salt password : Text) (d : Db)
      → (create_operator C now salt password d).1.sessions ≡ d.sessions
  unfolding create_operator insert_operator
  create_operator-sessions now salt password d = ground arith

  replace-sessions :
      (now : ℕ) (salt password : Text) (d : Db)
      → (replace_operator_password C now salt password d).1.sessions ≡ d.sessions
  unfolding replace_operator_password upsert_operator
  replace-sessions now salt password d = ground arith

  update-unique :
      (now : ℕ) (digest : Text) (o : Option Session) (d : Db)
      → unique d.sessions ≡ true
      → unique (set_last_seen C now digest o d).1.sessions ≡ true
  unfolding set_last_seen
  update-unique now digest none d u = u
  update-unique now digest (some s) d u =
      unique-insert digest (record s { last_seen = now }) d.sessions u

  run_op-unique :
      (op : Op) (d : Db) → unique d.sessions ≡ true → unique (run_op op d).sessions ≡ true
  unfolding run_op create_session update_last_seen revoke_session revoke_all_sessions purge_expired
  run_op-unique (login now raw) d u =
      unique-insert (C.sha256 raw) (record { created_at = now; last_seen = now }) d.sessions u
  run_op-unique (update now raw) d u =
      update-unique now (C.sha256 raw) (lookup (C.sha256 raw) d.sessions) d u
  run_op-unique (revoke up raw) d u = ground (arith, unique-remove (C.sha256 raw) d.sessions u)
  run_op-unique revoke_all d u = refl
  run_op-unique (purge now) d u =
      unique-filter (λ (s : Session). not (ltb s.last_seen (now - idle))) d.sessions u
  run_op-unique (create now salt password) d u = rw (create_operator-sessions now salt password d) u
  run_op-unique (replace now salt password) d u = rw (replace-sessions now salt password d) u

  updated_other :
      (now : ℕ) (digest k : Text) (o : Option Session) (d : Db)
      → text_eq digest k ≡ false
      → lookup k (set_last_seen C now digest o d).1.sessions ≡ lookup k d.sessions
  unfolding set_last_seen
  updated_other now digest k none d h = refl
  updated_other now digest k (some s) d h =
      rw (lookup-insert digest k (record s { last_seen = now }) d.sessions, h) refl

  kept_lem : (p : Session → Bool) (o : Option Session) → (kept p o ≡ o) ⊎ (kept p o ≡ none)
  kept_lem p none = inl refl
  kept_lem p (some s) = ground arith

  run_op-row_of :
      (raw : Text) (op : Op) (d : Db)
      → unique d.sessions ≡ true
      → spares raw op ≡ true
      → (row_of raw (run_op op d) ≡ row_of raw d) ⊎ (row_of raw (run_op op d) ≡ none)
  unfolding row_of run_op create_session update_last_seen revoke_session revoke_all_sessions
      purge_expired lookup
  run_op-row_of raw (login now other) d u s = inl (
      rw
        (lookup-insert (C.sha256 other) (C.sha256 raw)
          (record { created_at = now; last_seen = now }) d.sessions)
        (ground arith))
  run_op-row_of raw (update now other) d u s = inl (
      updated_other now (C.sha256 other) (C.sha256 raw) (lookup (C.sha256 other) d.sessions) d
        (ground arith))
  run_op-row_of raw (revoke up other) d u s =
      ground (arith, lookup-remove (C.sha256 other) (C.sha256 raw) d.sessions)
  run_op-row_of raw revoke_all d u s = inr refl
  run_op-row_of raw (purge now) d u s =
      rw
        (lookup-filter (λ (s : Session). not (ltb s.last_seen (now - idle))) (C.sha256 raw)
          d.sessions u)
        (kept_lem (λ (s : Session). not (ltb s.last_seen (now - idle)))
          (lookup (C.sha256 raw) d.sessions))
  run_op-row_of raw (create now salt password) d u s =
      inl (rw (create_operator-sessions now salt password d) refl)
  run_op-row_of raw (replace now salt password) d u s =
      inl (rw (replace-sessions now salt password d) refl)

  session_ok-row_of :
      (up : Bool) (now : ℕ) (raw : Text) (d e : Db)
      → (row_of raw e ≡ row_of raw d) ⊎ (row_of raw e ≡ none)
      → session_ok C up now raw e ≡ true
      → session_ok C up now raw d ≡ true
  unfolding session_ok row_of
  session_ok-row_of up now raw d e (inl same) h = rw⁻¹ same h
  session_ok-row_of up now raw d e (inr gone) h = absurd (ground (arith, gone))

  -- No operation but a log-in or an update under the same digest makes a session live longer: a
  -- session that is accepted after any others would have been accepted without them. In the table
  -- at first no digest stands twice.
  pub run_ops-session_ok :
      (up : Bool) (now : ℕ) (raw : Text) (ops : List Op) (d : Db)
      → unique d.sessions ≡ true
      → all (spares raw) ops ≡ true
      → session_ok C up now raw (run_ops ops d) ≡ true
      → session_ok C up now raw d ≡ true
  run_ops-session_ok up now raw [] d u s h = h
  run_ops-session_ok up now raw (op ∷ ops) d u s h =
      session_ok-row_of up now raw d (run_op op d) (run_op-row_of raw op d u (ground arith))
        (run_ops-session_ok up now raw ops (run_op op d) (run_op-unique op d u) (ground arith) h)

  -- A token of the cookie's size.
  abbrev pub is_token : Text → Bool
  is_token raw = not (is_empty raw) && leb (length raw) 128

  session_ok-is_live :
      (later : ℕ) (raw : Text) (d : Db)
      → is_token raw ≡ true
      → session_ok C true later raw d ≡ is_live later (lookup (C.sha256 raw) d.sessions)
  unfolding session_ok
  session_ok-is_live later raw d t = ground arith

  login-is_live :
      (now later : ℕ) (raw : Text) (d : Db)
      → is_live later (lookup (C.sha256 raw) (create_session C now raw d).sessions)
        ≡ leb (later - now) idle
  unfolding create_session
  login-is_live now later raw d =
      rw
        (
          lookup-insert (C.sha256 raw) (C.sha256 raw) (record { created_at = now; last_seen = now })
              d.sessions,
          text_eq_refl (C.sha256 raw),
        )
        refl

  updated-is_live :
      (now later : ℕ) (k : Text) (o : Option Session) (d : Db)
      → (set_last_seen C now k o d).0 ≡ true
      → is_live later (lookup k (set_last_seen C now k o d).1.sessions) ≡ leb (later - now) idle
  unfolding set_last_seen
  updated-is_live now later k none d h = absurd (ground arith)
  updated-is_live now later k (some s) d h =
      rw (lookup-insert k k (record s { last_seen = now }) d.sessions, text_eq_refl k) refl

  revoked-is_live :
      (later : ℕ) (raw : Text) (d : Db)
      → is_token raw ≡ true
      → is_live later (lookup (C.sha256 raw) (revoke_session C true raw d).sessions) ≡ false
  unfolding revoke_session
  revoked-is_live later raw d t =
      let e : is_empty raw ≡ false = ground arith in
      rw e (
        rw (lookup-remove (C.sha256 raw) (C.sha256 raw) d.sessions, text_eq_refl (C.sha256 raw))
          refl)

  -- A token of 1 to 128 characters is accepted for the idle time after the log-in, to the
  -- microsecond; after an update that finds its row, for the idle time after the update; and not
  -- at all once it is revoked; each time while the database answers.
  pub session_ok_lem :
      (now later : ℕ) (raw : Text) (d : Db)
      → is_token raw ≡ true
      → (session_ok C true later raw (create_session C now raw d) ≡ leb (later - now) idle)
        × ((update_last_seen C now raw d).0 ≡ true
            → session_ok C true later raw (update_last_seen C now raw d).1 ≡ leb (later - now) idle)
        × (session_ok C true later raw (revoke_session C true raw d) ≡ false)
  unfolding update_last_seen
  session_ok_lem now later raw d t = (
    session_ok-is_live later raw (create_session C now raw d) t ∙ login-is_live now later raw d,
    λ h.
        session_ok-is_live later raw (update_last_seen C now raw d).1 t
        ∙ updated-is_live now later (C.sha256 raw) (lookup (C.sha256 raw) d.sessions) d h,
    session_ok-is_live later raw (revoke_session C true raw d) t ∙ revoked-is_live later raw d t,
  )

  -- A session whose row is gone when a touch comes to its update stays gone: the touch answers
  -- false and changes nothing.
  pub touch_session_revoked :
      (up still_up : Bool) (checked now : ℕ) (between : Db → Db) (raw : Text) (d : Db)
      → is_none (lookup (C.sha256 raw) (between d).sessions) ≡ true
      → touch_session C up checked between still_up now raw d ≡ (false, between d)
  unfolding touch_session update_last_seen set_last_seen
  touch_session_revoked up still_up checked now between raw d h = ground arith
