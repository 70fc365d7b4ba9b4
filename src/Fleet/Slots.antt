-- ===== src/Fleet/Slots.antt =====
-- pipeline/fleet.py, `GlobalSlots`: how many slots there are, and which are given back.
use moirax_asm.Prelude.{
  ℕ, zero, suc, ◌+◌, ◌≤◌, ◌<◌, ◌≡◌, refl, sym, ap, ◌∙◌, Bool, true, false, not, ◌&&◌, inl, inr,
  Option, none, some, List, [], ◌∷◌, filter, length, ltb, ◌==◌, mem_ℕ, mem_ℕ-filter, arith,
  Bool-cases, Option-cases,
}
use moirax_asm.Fleet.{
  GlobalSlots, Step, start, end, free_slot, take_slot, unlink, acquire, release, step,
}

-- No number twice, and each below a limit.
abbrev pub all_below : ℕ → List ℕ → Bool
all_below n [] = true
all_below n (j ∷ js) = ltb j n && not (mem_ℕ j js) && all_below n js

pub free_slot_lem :
    (files : List ℕ) (i n j : ℕ)
    → free_slot files i n ≡ some j
    → (i ≤ j) × (j < i + n) × (mem_ℕ j files ≡ false)
unfolding free_slot
free_slot_lem files i zero j h = absurd (ground arith)
free_slot_lem files i (suc n) j h = elim (Bool-cases (mem_ℕ i files)) [
  | inl e ↦
      let (a, b, c) = free_slot_lem files (suc i) n j (rw e at h) in (omega arith, omega arith, c)
  | inr e ↦ let q : i ≡ j = ground arith in (omega arith, omega arith, rw⁻¹ q e)
]

all_below-filter :
    (n : ℕ) (p : ℕ → Bool) (js : List ℕ) → all_below n js ≡ true → all_below n (filter p js) ≡ true
all_below-filter n p [] h = refl
all_below-filter n p (j ∷ js) h = ground (arith, all_below-filter n p js, mem_ℕ-filter p js j)

take_slot-all_below :
    (s : GlobalSlots) (o : Option ℕ)
    → free_slot s.files 0 s.limit ≡ o
    → all_below s.limit s.files ≡ true
    → (all_below (take_slot s o).0.limit (take_slot s o).0.files ≡ true)
      × ((take_slot s o).0.limit ≡ s.limit)
unfolding take_slot
take_slot-all_below s none e h = (h, refl)
take_slot-all_below s (some j) e h =
    let (a, b, c) = free_slot_lem s.files 0 s.limit j e in (ground arith, refl)

unlink-all_below :
    (s : GlobalSlots) (o : Option ℕ)
    → all_below s.limit s.files ≡ true
    → (all_below (unlink s o).limit (unlink s o).files ≡ true) × ((unlink s o).limit ≡ s.limit)
unfolding unlink
unlink-all_below s none h = (h, refl)
unlink-all_below s (some i) h = (all_below-filter s.limit (λ j. not (j == i)) s.files h, refl)

step-all_below :
    (t : Step) (s : GlobalSlots)
    → all_below s.limit s.files ≡ true
    → (all_below (step t s).limit (step t s).files ≡ true) × ((step t s).limit ≡ s.limit)
unfolding step acquire release
step-all_below start s h = take_slot-all_below s (free_slot s.files 0 s.limit) refl h
step-all_below end s h = unlink-all_below s s.token h

abbrev pub steps : List Step → GlobalSlots → GlobalSlots
steps [] s = s
steps (t ∷ ts) s = steps ts (step t s)

-- Whatever the order in which members start and end, only slots below the limit exist, each once,
-- if this holds of the files at first.
pub steps-all_below :
    (ts : List Step) (s : GlobalSlots)
    → all_below s.limit s.files ≡ true
    → all_below s.limit (steps ts s).files ≡ true
steps-all_below [] s h = h
steps-all_below (t ∷ ts) s h =
    let (a, e) = step-all_below t s h in
    ap (λ (n : ℕ). all_below n (steps ts (step t s)).files) (sym e)
    ∙ steps-all_below ts (step t s) a

free_slot_full :
    (files : List ℕ) (i n : ℕ)
    → free_slot files i n ≡ none
    → (j : ℕ) → i ≤ j
    → j < i + n
    → mem_ℕ j files ≡ true
unfolding free_slot
free_slot_full files i zero h j a b = absurd (omega arith)
free_slot_full files i (suc n) h j a b = elim (Bool-cases (mem_ℕ i files)) [
  | inr e ↦ absurd (ground (arith, e))
  | inl e ↦ elim (Bool-cases (i == j)) [
    | inl s ↦ let q : j ≡ i = ground arith in rw q e
    | inr s ↦ free_slot_full files (suc i) n (rw e at h) j (ground arith) (omega arith)
  ]
]

-- A member is refused a slot exactly if each number below the limit is taken.
pub acquire_refused :
    (s : GlobalSlots) → (acquire s).1 ≡ false → (j : ℕ) → j < s.limit → mem_ℕ j s.files ≡ true
unfolding acquire take_slot
acquire_refused s h j b = elim (Option-cases (free_slot s.files 0 s.limit)) [
  | inl e ↦ free_slot_full s.files 0 s.limit e j (omega arith) (omega arith)
  | inr (i, e) ↦ absurd (ground (arith, e))
]

filter_absent :
    (j : ℕ) (files : List ℕ) → mem_ℕ j files ≡ false → filter (λ i. not (i == j)) files ≡ files
filter_absent j [] h = refl
filter_absent j (i ∷ files) h = ground (arith, filter_absent j files)

unlink_taken :
    (s : GlobalSlots) (j : ℕ)
    → mem_ℕ j s.files ≡ false
    → (unlink (take_slot s (some j)).0 (some j)).files ≡ s.files
unfolding unlink take_slot
unlink_taken s j h = ground (arith, filter_absent j s.files h)

acquired :
    (s : GlobalSlots)
    → (acquire s).1 ≡ true
    → (j : ℕ) × (mem_ℕ j s.files ≡ false) × ((acquire s).0 ≡ (take_slot s (some j)).0)
unfolding acquire take_slot
acquired s h = elim (Option-cases (free_slot s.files 0 s.limit)) [
  | inl e ↦ absurd (ground (arith, e))
  | inr (j, e) ↦ let (a, b, free) = free_slot_lem s.files 0 s.limit j e in (j, free, rw e refl)
]

release-acquire_files :
    (s : GlobalSlots) → (acquire s).1 ≡ true → (release (acquire s).0).files ≡ s.files
unfolding release take_slot
release-acquire_files s h = let (j, free, e) = acquired s h in rw e (unlink_taken s j free)

release-acquire_token :
    (s : GlobalSlots) → (acquire s).1 ≡ true → (release (acquire s).0).token ≡ none
unfolding release take_slot unlink
release-acquire_token s h = let (j, free, e) = acquired s h in rw e refl

release-none : (s : GlobalSlots) → s.token ≡ none → (release s).files ≡ s.files
unfolding release unlink
release-none s h = rw h refl

acquire-length :
    (s : GlobalSlots) → (acquire s).1 ≡ true → length (acquire s).0.files ≡ length s.files + 1
unfolding take_slot
acquire-length s h = let (j, free, e) = acquired s h in rw e (omega arith)

-- A member that starts and ends before another starts gives its slot back. Of two members that
-- start one after the other before either ends, the slot file of the first is still there when
-- both have ended.
pub release-acquire :
    (s : GlobalSlots)
    → (acquire s).1 ≡ true
    → ((release (acquire s).0).files ≡ s.files)
      × ((acquire (acquire s).0).1 ≡ true
          → ((steps (start ∷ start ∷ end ∷ end ∷ []) s).files ≡ (acquire s).0.files)
            × (length (steps (start ∷ start ∷ end ∷ end ∷ []) s).files ≡ length s.files + 1))
unfolding step
release-acquire s h = (
  release-acquire_files s h,
  λ k.
      let kept : (release (release (acquire (acquire s).0).0)).files ≡ (acquire s).0.files =
        release-none (release (acquire (acquire s).0).0) (release-acquire_token (acquire s).0 k)
        ∙ release-acquire_files (acquire s).0 k in
      (kept, ap length kept ∙ acquire-length s h),
)
