-- ===== src/Tests/Threads.antt =====
-- Interleavings of the load loops of a resource consumer with its caller.
use autoscale_tests.Base.{ℕ, ◌≡◌, inl, refl, arith, List, [], ◌∷◌}
use autoscale_tests.Framework.Consumer.{ResourceConsumerConfig, sidecar_disabled}
use autoscale_tests.Framework.Consumer.Loop.{load_loop}
use autoscale_tests.Framework.Consumer.Threads.{
  State, cpu_side, gone, cleaned, idle, offers, adds, fires, finishes, ends, stops, signals, Steps,
  none_yet, then_step, Reach, cpu_moves, mem_moves, cpu_receives, mem_receives, context_ends,
  first_cpu, first_mem, consume_cpu, closes_cpu, closes_mem, returns,
}
use autoscale_tests.Framework.Consumer.Threads.Quietness.{
  clean_up_sends_nothing, consume_cpu_blocks,
}
use autoscale_tests.Framework.Consumer.Threads.Refined.{log, goroutines_refine_loop}
use autoscale_tests.Framework.Consumer.Threads.Registered.{clean_up_waits}
use autoscale_tests.Framework.Consumer.Threads.Early.{ReturnsEarly, clean_up-ReturnsEarly}
use autoscale_tests.Framework.Consumer.Threads.Returning.{clean_up_can_return}

abbrev with_loads : ℕ → ℕ → ResourceConsumerConfig
with_loads cpu mem = record {
  name = "consumer";
  namespace = "test";
  replicas = 1;
  cpu_request = 500;
  mem_request = 200;
  mem_limit = 0;
  init_cpu_total = cpu;
  init_mem_total = mem;
  sidecar = sidecar_disabled;
}

-- both loops have taken their initial loads, and the one for the CPU has sent it twice
abbrev both_loaded : (s : State) × Reach (with_loads 250 100) s
both_loaded = (
  _,
  then_step
      (then_step
        (then_step
          (then_step
            (then_step
              (then_step (then_step (then_step none_yet (cpu_moves (adds refl))) (first_cpu refl))
                (cpu_receives refl refl))
              (first_mem refl))
            (mem_moves (adds refl)))
          (mem_receives refl refl))
        (cpu_moves (finishes refl)))
      (cpu_moves (fires refl (omega arith))),
)

-- CleanUp waits for the two loops, which are sending
abbrev closed : (s : State) × Reach (with_loads 250 100) s
closed = (_, then_step (then_step both_loaded.1 (closes_cpu refl refl)) (closes_mem refl refl))

-- both loops have ended, and CleanUp has returned
abbrev all_ended : (s : State) × Reach (with_loads 250 100) s
all_ended = (
  _,
  then_step
      (then_step
        (then_step
          (then_step
            (then_step
              (then_step (then_step closed.1 (cpu_moves (finishes refl)))
                (mem_moves (finishes refl)))
              (cpu_moves (stops refl refl)))
            (mem_moves (stops refl refl)))
          (mem_moves (signals refl refl)))
        (cpu_moves (signals refl refl)))
      (returns refl refl),
)

-- with no initial loads, CleanUp has returned before the loops have begun
abbrev early : (s : State) × Reach (with_loads 0 0) s
early = (
  _,
  then_step
      (then_step
        (then_step (then_step (then_step none_yet (first_cpu refl)) (first_mem refl))
          (closes_cpu refl refl))
        (closes_mem refl refl))
      (returns refl refl),
)

-- the context has ended and so has the loop for the CPU, and a load is offered to it
abbrev offered : (s : State) × Reach (with_loads 0 0) s
offered = (
  _,
  then_step
      (then_step
        (then_step
          (then_step
            (then_step (then_step (then_step none_yet (cpu_moves (adds refl))) context_ends)
              (cpu_moves (ends refl refl)))
            (cpu_moves (signals refl refl)))
          (first_cpu refl))
        (first_mem refl))
      (consume_cpu 300 refl),
)

both_loaded_sent : both_loaded.0.cpu.sent ≡ 250 ∷ 250 ∷ []
both_loaded_sent = refl

goroutines_refine_loop_example :
    (all_ended.0.cpu.sent ≡ load_loop log 0 all_ended.0.cpu.history [])
    × (all_ended.0.mem.sent ≡ load_loop log 0 all_ended.0.mem.history [])
goroutines_refine_loop_example = goroutines_refine_loop all_ended.1

clean_up_sends_nothing_example : ◌≡◌ {A = List ℕ} [] [] × ◌≡◌ {A = List ℕ} [] []
clean_up_sends_nothing_example = clean_up_sends_nothing early.1 refl (cpu_moves (adds refl))

clean_up_waits_example : (all_ended.0.cpu.place ≡ gone) × (all_ended.0.mem.place ≡ gone)
clean_up_waits_example = clean_up_waits (omega arith) (omega arith) all_ended.1 refl

clean_up-ReturnsEarly_example : ReturnsEarly (with_loads 0 100)
clean_up-ReturnsEarly_example = clean_up-ReturnsEarly (with_loads 0 100) (inl refl)

clean_up_can_return_example :
    (t : State) × Steps (with_loads 250 100) closed.0 t × (t.caller ≡ cleaned)
clean_up_can_return_example = clean_up_can_return closed.1 refl

consume_cpu_blocks_example : offers cpu_side 300 idle ≡ offers cpu_side 300 idle
consume_cpu_blocks_example =
    consume_cpu_blocks {cfg = with_loads 0 0} {s = offered.0} refl refl
      (then_step (then_step none_yet (mem_moves (adds refl))) (mem_moves (ends refl refl)))
