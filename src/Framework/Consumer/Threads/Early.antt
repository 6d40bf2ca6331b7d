-- ===== src/Framework/Consumer/Threads/Early.antt =====
-- A loop that has not registered yet is not waited for.
use autoscale_tests.Base.{ℕ, ◌≡◌, ◌<◌, ◌⊎◌, inl, inr, refl, subst, arith, ltb, ltb→lt, Bool-cases}
use autoscale_tests.Framework.Consumer.{ResourceConsumerConfig}
use autoscale_tests.Framework.Consumer.Threads.{
  Side, cpu_side, mem_side, fresh, State, Caller, offers, cleaned, initial_cpu, initial_mem, idle,
  initial, adds, finishes, stops, signals, Step, none_yet, then_step, Reach, cpu_moves, mem_moves,
  cpu_receives, mem_receives, first_cpu, first_mem, closes_cpu, closes_mem, returns,
}
use autoscale_tests.Framework.Consumer.Threads.Registered.{initial-offers}

initial-skips :
    (side : Side) (total : ℕ) (next : Caller) → total ≡ 0 → initial side total next ≡ next
initial-skips side total next h = rw h

module _ {cfg : ResourceConsumerConfig} {s : State} where
  skips_cpu :
      s.caller ≡ initial_cpu
      → cfg.init_cpu_total ≡ 0
      → Step cfg s (record s { caller = initial_mem })
  skips_cpu e h =
      subst (λ c. Step cfg s (record s { caller = c }))
        (initial-skips cpu_side cfg.init_cpu_total initial_mem h) (first_cpu e)

  skips_mem :
      s.caller ≡ initial_mem → cfg.init_mem_total ≡ 0 → Step cfg s (record s { caller = idle })
  skips_mem e h =
      subst (λ c. Step cfg s (record s { caller = c }))
        (initial-skips mem_side cfg.init_mem_total idle h) (first_mem e)

  offers_cpu :
      s.caller ≡ initial_cpu
      → 0 < cfg.init_cpu_total
      → Step cfg s (record s { caller = offers cpu_side cfg.init_cpu_total initial_mem })
  offers_cpu e h =
      subst (λ c. Step cfg s (record s { caller = c }))
        (initial-offers cpu_side cfg.init_cpu_total initial_mem h) (first_cpu e)

  offers_mem :
      s.caller ≡ initial_mem
      → 0 < cfg.init_mem_total
      → Step cfg s (record s { caller = offers mem_side cfg.init_mem_total idle })
  offers_mem e h =
      subst (λ c. Step cfg s (record s { caller = c }))
        (initial-offers mem_side cfg.init_mem_total idle h) (first_mem e)

-- CleanUp has returned, and a loop has not even begun.
abbrev pub ReturnsEarly : ResourceConsumerConfig → Type 0
ReturnsEarly cfg =
    (s : State) × Reach cfg s
    × (s.caller ≡ cleaned)
    × ((s.cpu.place ≡ fresh) ⊎ (s.mem.place ≡ fresh))

module _ (cfg : ResourceConsumerConfig) where
  neither : cfg.init_cpu_total ≡ 0 → cfg.init_mem_total ≡ 0 → ReturnsEarly cfg
  neither hc hm = (
    _,
    then_step
        (then_step
          (then_step (then_step (then_step none_yet (skips_cpu refl hc)) (skips_mem refl hm))
            (closes_cpu refl refl))
          (closes_mem refl refl))
        (returns refl refl),
    refl,
    inl refl,
  )

  mem_only : cfg.init_cpu_total ≡ 0 → 0 < cfg.init_mem_total → ReturnsEarly cfg
  mem_only hc hm = (
    _,
    then_step
        (then_step
          (then_step
            (then_step
              (then_step
                (then_step
                  (then_step
                    (then_step
                      (then_step (then_step none_yet (mem_moves (adds refl))) (skips_cpu refl hc))
                      (offers_mem refl hm))
                    (mem_receives refl refl))
                  (mem_moves (finishes refl)))
                (closes_cpu refl refl))
              (closes_mem refl refl))
            (mem_moves (stops refl refl)))
          (mem_moves (signals refl refl)))
        (returns refl refl),
    refl,
    inl refl,
  )

  cpu_only : 0 < cfg.init_cpu_total → cfg.init_mem_total ≡ 0 → ReturnsEarly cfg
  cpu_only hc hm = (
    _,
    then_step
        (then_step
          (then_step
            (then_step
              (then_step
                (then_step
                  (then_step
                    (then_step
                      (then_step (then_step none_yet (cpu_moves (adds refl))) (offers_cpu refl hc))
                      (cpu_receives refl refl))
                    (cpu_moves (finishes refl)))
                  (skips_mem refl hm))
                (closes_cpu refl refl))
              (closes_mem refl refl))
            (cpu_moves (stops refl refl)))
          (cpu_moves (signals refl refl)))
        (returns refl refl),
    refl,
    inr refl,
  )

  some_or_none : (n : ℕ) → (n ≡ 0) ⊎ (0 < n)
  some_or_none n = elim (Bool-cases (ltb 0 n)) [
    | inl h ↦ inr (ltb→lt 0 n h)
    | inr h ↦ inl (ground arith)
  ]

  -- Where an initial load is 0, CleanUp can return before a load loop has begun, which then is
  -- not waited for.
  pub clean_up-ReturnsEarly : (cfg.init_cpu_total ≡ 0) ⊎ (cfg.init_mem_total ≡ 0) → ReturnsEarly cfg
  clean_up-ReturnsEarly (inl hc) = elim (some_or_none cfg.init_mem_total) [
    | inl hm ↦ neither hc hm
    | inr hm ↦ mem_only hc hm
  ]
  clean_up-ReturnsEarly (inr hm) = elim (some_or_none cfg.init_cpu_total) [
    | inl hc ↦ neither hc hm
    | inr hc ↦ cpu_only hc hm
  ]
