-- ===== src/Breaker/Rows.antt =====
-- pipeline/breaker.py: the dict of the modules' rows, and the reset of those that are paused.
use moirax_asm.Prelude.{
  ◌&&◌, is_none, codes, ◌≡◌, refl, ◌∙◌, Bool, true, false, not, ◌||◌, Option, none, some, List, [],
  ◌∷◌, ◌++◌, if◌then◌else◌, if_elim, Text, text_eq, text_eq_iff, is_empty, mem, filter, any, arith,
}
use moirax_asm.Prelude.Dict.{Dict, lookup, insert, lookup-insert}
use moirax_asm.Prelude.Num.{Num}
use moirax_asm.Breaker.{Settings, World, fresh, allow, reset_row}

module _ {F : Type 0} ⦃N : Num F⦄ (c : Settings F) where
  -- The dict `_modules`; `_state` makes a fresh row for a new name.
  or_fresh : Option (World F) → World F
  unfolding fresh
  or_fresh none = (fresh, record { log = []; persisted = none; sent = [] })
  or_fresh (some w) = w

  unfoldable pub state_of : Text → Dict (World F) → World F
  unfolding or_fresh
  state_of name d = or_fresh (lookup name d)

  unfoldable pub update : Text → (World F → World F) → Dict (World F) → Dict (World F)
  unfolding state_of
  update name f d = insert name (f (state_of name d)) d

  unfoldable pub allows : Dict (World F) → Text → Bool
  unfolding state_of allow
  allows d name = allow c (state_of name d)

  -- `_load_persisted_pauses`: the modules that are paused in state.json, each with its reason.
  unfoldable pub load_persisted_pauses : Dict Text → Dict (World F) → Dict (World F)
  load_persisted_pauses [] d = d
  load_persisted_pauses ((name, reason) ∷ paused) d =
      let (s, x) = state_of name d in
      load_persisted_pauses paused (
        insert name
          (
            record s {
              paused = true;
              anomaly_sent = true;
              pause_reason =
                  some (if not (is_empty reason) then reason else codes "persisted pause");
            },
            record x { persisted = some reason },
          )
          d)

  unfoldable pub paused_module_names : Dict (World F) → List Text
  paused_module_names [] = []
  paused_module_names ((name, (s, x)) ∷ d) =
      let rest = paused_module_names d in if s.paused then name ∷ rest else rest

  unfoldable pub any_paused : Dict (World F) → Bool
  any_paused d = any (λ (e : Text × World F). e.1.0.paused) d

  -- The loop of `reset_paused` over the names; it returns the cleared ones.
  unfoldable pub reset_names : F → Text → List Text → Dict (World F) → Dict (World F) × List Text
  unfolding state_of reset_row
  reset_names now reason [] d = (d, [])
  reset_names now reason (name ∷ names) d =
      let skip = reset_names now reason names d in
      let (w, cleared) = reset_row c now reason (state_of name d) in
      let (d', rest) = reset_names now reason names (insert name w d) in
      if is_empty name then skip else (d', if cleared then name ∷ rest else rest)

  abbrev missing : List Text → List Text → List Text
  missing names extra = filter (λ n. not (mem n names)) extra

  -- `clear_breaker_pauses` of state.json.
  clear_persisted : Dict (World F) → Dict (World F)
  clear_persisted [] = []
  clear_persisted ((name, (s, x)) ∷ d) =
      (name, (s, record x { persisted = none })) ∷ clear_persisted d

  -- Without a module, the paused rows in memory and then the modules paused in state.json.
  unfoldable pub reset_paused :
      F → Text → Option Text → List Text → Dict (World F) → Dict (World F) × List Text
  unfolding reset_names paused_module_names clear_persisted
  reset_paused now reason (some name) persisted d =
      reset_names now reason (if is_empty name then paused_module_names d else name ∷ []) d
  reset_paused now reason none persisted d =
      let names = paused_module_names d in
      if c.has_target_dir
      then (let (d', cleared) = reset_names now reason (names ++ missing names persisted) d in
          (clear_persisted d', cleared))
      else reset_names now reason names d

module _ {F : Type 0} ⦃N : Num F⦄ (c : Settings F) where
  reset_row-allow :
      (now : F) (reason : Text) (w : World F) → allow c (reset_row c now reason w).0 ≡ true
  unfolding reset_row allow
  reset_row-allow now reason (s, x) = ground arith

  allows-insert :
      (k j : Text) (w : World F) (d : Dict (World F))
      → allows c (insert k w d) j ≡ (if text_eq k j then allow c w else allows c d j)
  unfolding allows state_of
  allows-insert k j w d = ground (arith, lookup-insert k j w d)

  empty_other : (name n : Text) → is_empty name ≡ false → is_empty n ≡ true → text_eq name n ≡ false
  unfolding text_eq
  empty_other [] n e h = absurd (ground arith)
  empty_other (a ∷ name) [] e h = refl
  empty_other (a ∷ name) (b ∷ n) e h = absurd (ground arith)

  reset_names-allows :
      (now : F) (reason name : Text) (names : List Text) (d : Dict (World F))
      → is_empty name ≡ false
      → (mem name names || allows c d name) ≡ true
      → allows c (reset_names c now reason names d).0 name ≡ true
  unfolding reset_names mem
  reset_names-allows now reason name [] d e h = h
  reset_names-allows now reason name (n ∷ names) d e h =
      let reset = reset_row c now reason (state_of c n d) in
      if_elim (λ (r : Dict (World F) × List Text). allows c r.0 name ≡ true) (is_empty n) _ _
        (λ blank.
          reset_names-allows now reason name names d e (ground (arith, empty_other name n e blank)))
        (λ named. reset_names-allows now reason name names (insert n reset.0 d) e (
          ground (
            arith,
            allows-insert n name reset.0 d,
            reset_row-allow now reason (state_of c n d),
            text_eq_iff n name,
            text_eq_iff name n,
          )))

  paused_module_names-mem :
      (name : Text) (d : Dict (World F))
      → (mem name (paused_module_names c d) || allows c d name) ≡ true
  unfolding allows state_of lookup allow paused_module_names mem fresh
  paused_module_names-mem name [] = refl
  paused_module_names-mem name ((j, (s, x)) ∷ d) =
      ground (arith, paused_module_names-mem name d, text_eq_iff j name, text_eq_iff name j)

  allows-clear_persisted :
      (name : Text) (d : Dict (World F)) → allows c (clear_persisted c d) name ≡ allows c d name
  unfolding allows state_of lookup allow clear_persisted
  allows-clear_persisted name [] = refl
  allows-clear_persisted name ((j, (s, x)) ∷ d) = ground (arith, allows-clear_persisted name d)

  mem-append_right : (x : Text) (ts us : List Text) → mem x ts ≡ true → mem x (ts ++ us) ≡ true
  unfolding mem
  mem-append_right x [] us h = absurd (ground arith)
  mem-append_right x (t ∷ ts) us h = ground (arith, mem-append_right x ts us)

  -- A reset that names no module lets every module with a name run again, whatever state.json says.
  pub reset_paused-allows :
      (now : F) (reason name : Text) (persisted : List Text) (d : Dict (World F))
      → is_empty name ≡ false
      → allows c (reset_paused c now reason none persisted d).0 name ≡ true
  unfolding reset_paused
  reset_paused-allows now reason name persisted d e =
      let names = paused_module_names c d in
      let more = names ++ missing c names persisted in
      if_elim (λ (r : Dict (World F) × List Text). allows c r.0 name ≡ true) c.has_target_dir _ _
        (λ h.
          allows-clear_persisted name (reset_names c now reason more d).0
          ∙ reset_names-allows now reason name more d e (
              ground (
                arith,
                paused_module_names-mem name d,
                mem-append_right name names (missing c names persisted),
              )))
        (λ h. reset_names-allows now reason name names d e (paused_module_names-mem name d))

  -- A breaker that starts on a state.json pauses the modules that are paused there, and leaves each
  -- other module as it was.
  pub load_persisted_pauses-allows :
      (name : Text) (paused : Dict Text) (d : Dict (World F))
      → allows c (load_persisted_pauses c paused d) name
        ≡ (is_none (lookup name paused) && allows c d name)
  unfolding load_persisted_pauses lookup allow
  load_persisted_pauses-allows name [] d = refl
  load_persisted_pauses-allows name ((j, reason) ∷ paused) d =
      let (s, x) = state_of c j d in
      let row : World F = (
        record s {
          paused = true;
          anomaly_sent = true;
          pause_reason = some (if not (is_empty reason) then reason else codes "persisted pause");
        },
        record x { persisted = some reason },
      ) in
      ground (
        arith,
        load_persisted_pauses-allows name paused (insert j row d),
        allows-insert j name row d,
      )
