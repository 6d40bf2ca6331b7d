-- ===== src/Cas/MachineSets/Latest.antt =====
-- The machine that was created last.
use autoscale_tests.Base.{
  ℕ, ◌≤◌, ◌<◌, ◌≡◌, ◌⊎◌, inl, inr, refl, Option, none, some, List, [], ◌∷◌, All, Some, this, later,
  arith, ltb, Bool-cases, ltb→lt,
}
use autoscale_tests.Base.Result.{ok, wrapping, >>=-ok, wrapping-ok, pure-ok}
use autoscale_tests.Cas.Objects.{Machine, MachineSet}
use autoscale_tests.Cas.Client.{Client}
use autoscale_tests.Cas.MachineSets.{
  latest, oldest, get_machines_from_machine_set, get_latest_machine_from_machine_set,
}

abbrev pub NotAfter : ℕ → List Machine → Type 0
NotAfter time = All (λ m. m.created ≤ time)

NotAfter-le : (s t : ℕ) (ms : List Machine) → s ≤ t → NotAfter s ms → NotAfter t ms
NotAfter-le s t [] h all = tt
NotAfter-le s t (m ∷ ms) h (here, all) = (omega arith, NotAfter-le s t ms h all)

-- No machine is newer than the start and the machine so far is the answer, or the answer is a
-- machine of the list that is newer than the start and than which none is newer.
abbrev pub IsLatest : ℕ → Option Machine → List Machine → Option Machine → Type 0
IsLatest start before ms answer =
    ((answer ≡ before) × NotAfter start ms)
    ⊎ ((m : Machine) × (answer ≡ some m)
        × Some (λ x. x ≡ m) ms
        × (start < m.created)
        × NotAfter m.created ms)

latest-IsLatest :
    (newest : ℕ) (before : Option Machine) (ms : List Machine)
    → IsLatest newest before ms (latest newest before ms)
unfolding latest
latest-IsLatest newest before [] = inl (refl, tt)
latest-IsLatest newest before (m ∷ ms) = elim (Bool-cases (ltb newest m.created)) [
  | inl e ↦ elim (latest-IsLatest m.created (some m) ms) [
    | inl (same, all) ↦ inr (m, rw e same, this refl, ltb→lt newest m.created e, (omega arith, all))
    | inr (x, found, inside, after, all) ↦
        inr (
          x,
          rw e found,
          later inside,
          omega (arith, ltb→lt newest m.created e),
          (omega arith, all),
        )
  ]
  | inr e ↦ elim (latest-IsLatest newest before ms) [
    | inl (same, all) ↦ inl (rw e same, (ground arith, all))
    | inr (x, found, inside, after, all) ↦
        inr (x, rw e found, later inside, after, (ground arith, all))
  ]
]

-- The answer for a machine set is none if none of its machines was created after December 1, 2019,
-- noon, and otherwise one of its machines that was, and than which none was created later.
pub get_latest_machine_from_machine_set-IsLatest :
    {W : Type 0} (c : Client W) (ms : MachineSet) (w w' : W) (answer : Option Machine)
    → get_latest_machine_from_machine_set c ms w ≡ (ok answer, w')
    → (machines : List Machine) × (v : W) × (get_machines_from_machine_set c ms w
        ≡ (ok machines, v))
      × IsLatest oldest none machines answer
unfolding get_latest_machine_from_machine_set
get_latest_machine_from_machine_set-IsLatest c ms w w' answer h =
    let (machines, v, listed, rest) =
      >>=-ok (wrapping "error getting machines" (get_machines_from_machine_set c ms)) _ w h in
    (
      machines,
      v,
      wrapping-ok "error getting machines" (get_machines_from_machine_set c ms) w listed,
      rw (← pure-ok (latest oldest none machines) v rest) (latest-IsLatest oldest none machines),
    )
