-- ===== src/Cas/Events/Dispatch.antt =====
-- Which handlers an event reaches, now and after more registrations.
use mathlib.Core.Option.{some-injective}
use native.Mathlib.Nat.{zero-add}
use autoscale_tests.Base.{
  ℕ, zero, suc, ◌+◌, ◌≡◌, ◌↔◌, inl, inr, refl, ap, Bool, true, false, ◌&&◌, Option, none, some,
  List, [], ◌∷◌, ◌++◌, Some, this, later, Some-cons, ltb, arith, Bool-cases,
}
use autoscale_tests.Cas.Events.{
  EventHandler, EventWatcher, calls, dispatch, on_event, enable_at, enable,
}

-- A registration, or a handler that is enabled.
pub data WatcherStep (E : Type 0) : Type 0 where
  registers : (E → Bool) → WatcherStep E
  enables : ℕ → WatcherStep E

module _ {E : Type 0} where
  unfoldable pub at : List (EventHandler E) → ℕ → Option (EventHandler E)
  at [] n = none
  at (h ∷ hs) zero = some h
  at (h ∷ hs) (suc n) = at hs n

  -- The handler at a place is enabled and matches.
  abbrev pub Listens : E → List (EventHandler E) → ℕ → Type 0
  Listens event hs n =
      (h : EventHandler E) × (at hs n ≡ some h) × (h.enabled ≡ true) × (h.matcher event ≡ true)

  calls_sound :
      (k : ℕ) (hs : List (EventHandler E)) (event : E) {n : ℕ}
      → Some (λ m. m ≡ n) (calls k hs event)
      → (j : ℕ) × (n ≡ k + j) × Listens event hs j
  unfolding calls at
  calls_sound k [] event found = elim found [ ]
  calls_sound k (h ∷ hs) event found = elim (Bool-cases (h.enabled && h.matcher event)) [
    | inr e ↦
        let (j, place, listens) = calls_sound (suc k) hs event (rw (e, calls) at found) in
        (suc j, omega arith, listens)
    | inl e ↦ elim (Some-cons (rw (e, calls) at found)) [
      | inl same ↦ (0, omega arith, (h, refl, ground arith, ground arith))
      | inr rest ↦
          let (j, place, listens) = calls_sound (suc k) hs event rest in
          (suc j, omega arith, listens)
    ]
  ]

  calls_complete :
      (k : ℕ) (hs : List (EventHandler E)) (event : E) (j : ℕ)
      → Listens event hs j
      → Some (λ m. m ≡ k + j) (calls k hs event)
  unfolding calls at
  calls_complete k [] event j listens = let nothing = listens.1 in cc
  calls_complete k (h ∷ hs) event zero (g, found, on, matches) =
      let same : h ≡ g = cc in
      let e : (h.enabled && h.matcher event) ≡ true = rw (same, on, matches) in
      rw e (this (omega arith))
  calls_complete k (h ∷ hs) event (suc j) listens =
      let found = next j (calls_complete (suc k) hs event j listens) in
      elim (Bool-cases (h.enabled && h.matcher event)) [
        | inl e ↦ rw e (later found)
        | inr e ↦ rw e found
      ]
    where
      next :
          (i : ℕ)
          → Some (λ m. m ≡ suc k + i) (calls (suc k) hs event)
          → Some (λ m. m ≡ k + suc i) (calls (suc k) hs event)
      next i found = let same : suc k + i ≡ k + suc i = omega arith in rw (← same) found

  -- An event reaches the handler at a place exactly when it was not created before the watcher
  -- started and the handler is enabled and matches it.
  pub dispatch_iff :
      (created : E → ℕ) (w : EventWatcher E) (event : E) (n : ℕ)
      → Some (λ m. m ≡ n) (dispatch created w event)
        ↔ ((ltb (created event) w.start_time ≡ false) × Listens event w.event_handlers n)
  unfolding dispatch
  dispatch_iff created w event n = (
    reached,
    λ (started, listens).
        rw started (rw (← zero-add n) (calls_complete 0 w.event_handlers event n listens)),
  )
    where
      reached :
          Some (λ m. m ≡ n) (dispatch created w event)
          → (ltb (created event) w.start_time ≡ false) × Listens event w.event_handlers n
      reached found = elim (Bool-cases (ltb (created event) w.start_time)) [
        | inl e ↦ let nothing = rw (e, dispatch) at found in elim nothing [ ]
        | inr e ↦
            let (j, place, listens) =
              calls_sound 0 w.event_handlers event (rw (e, dispatch) at found) in
            let same : j ≡ n = omega arith in (e, rw (← same) listens)
      ]

  unfoldable pub run : List (WatcherStep E) → EventWatcher E → EventWatcher E
  run [] w = w
  run (registers matcher ∷ steps) w = run steps (on_event matcher w).1
  run (enables n ∷ steps) w = run steps (enable n w)

  -- A handler with the given matcher is at the place, enabled.
  abbrev On : (E → Bool) → ℕ → List (EventHandler E) → Type 0
  On matcher n hs = at hs n ≡ some (record { matcher = matcher; enabled = true })

  at-append :
      (hs more : List (EventHandler E)) (n : ℕ) {h : EventHandler E}
      → at hs n ≡ some h
      → at (hs ++ more) n ≡ some h
  unfolding at
  at-append [] more n found = cc
  at-append (g ∷ hs) more zero found = found
  at-append (g ∷ hs) more (suc n) found = at-append hs more n found

  enabled_alike :
      (g h : EventHandler E)
      → some g ≡ some h
      → some (record g { enabled = true }) ≡ some (record h { enabled = true })
  enabled_alike g h same =
      ap (λ (x : EventHandler E). some (record x { enabled = true })) (some-injective g h same)

  at-enable_at :
      (hs : List (EventHandler E)) (m n : ℕ) (matcher : E → Bool)
      → On matcher n hs
      → On matcher n (enable_at m hs)
  unfolding at enable_at
  at-enable_at [] m n matcher found = cc
  at-enable_at (g ∷ hs) zero zero matcher found = enabled_alike g _ found
  at-enable_at (g ∷ hs) zero (suc n) matcher found = found
  at-enable_at (g ∷ hs) (suc m) zero matcher found = found
  at-enable_at (g ∷ hs) (suc m) (suc n) matcher found = at-enable_at hs m n matcher found

  enabled_at :
      (hs : List (EventHandler E)) (n : ℕ) {h : EventHandler E}
      → at hs n ≡ some h
      → On h.matcher n (enable_at n hs)
  unfolding at enable_at
  enabled_at [] n found = cc
  enabled_at (g ∷ hs) zero found = enabled_alike g _ found
  enabled_at (g ∷ hs) (suc n) found = enabled_at hs n found

  stays-On :
      (steps : List (WatcherStep E)) (w : EventWatcher E) (n : ℕ) (matcher : E → Bool)
      → On matcher n w.event_handlers
      → On matcher n (run steps w).event_handlers × ((run steps w).start_time ≡ w.start_time)
  unfolding run on_event enable
  stays-On [] w n matcher found = (found, refl)
  stays-On (registers m ∷ steps) w n matcher found =
      stays-On steps (on_event m w).1 n matcher (at-append w.event_handlers _ n found)
  stays-On (enables m ∷ steps) w n matcher found =
      stays-On steps (enable m w) n matcher (at-enable_at w.event_handlers m n matcher found)

  -- Once a registered handler is enabled, every event that it matches and that was not created before
  -- the watcher started reaches it, whatever is registered or enabled in between.
  pub enabled_hears :
      (created : E → ℕ) (w : EventWatcher E) (n : ℕ) {h : EventHandler E}
      (steps : List (WatcherStep E)) (event : E)
      → at w.event_handlers n ≡ some h
      → h.matcher event ≡ true
      → ltb (created event) w.start_time ≡ false
      → Some (λ m. m ≡ n) (dispatch created (run steps (enable n w)) event)
  unfolding enable
  enabled_hears created w n {h} steps event found matches started =
      let (on, same) =
        stays-On steps (enable n w) n h.matcher (enabled_at w.event_handlers n found) in
      (dispatch_iff created (run steps (enable n w)) event n).1
        (rw same started, (record { matcher = h.matcher; enabled = true }, on, refl, matches))
