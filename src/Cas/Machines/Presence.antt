-- ===== src/Cas/Machines/Presence.antt =====
-- `MachinesPresent`, against the machines that are there.
use autoscale_tests.Base.{
  suc, ◌≤◌, String, ◌≡◌, ◌↔◌, refl, Bool, true, false, ◌&&◌, Option, none, some, List, [], ◌∷◌,
  arith, All, length, Option-cases, inl, inr, str_eq, eq_iff, if◌then◌else◌,
}
use autoscale_tests.Base.Dict.{Dict, get, put, get-put}
use autoscale_tests.Cas.Objects.{Machine}
use autoscale_tests.Cas.Machines.{uid_set, all_found, machines_present}

-- whether a UID is among those of some machines
unfoldable pub has_uid : List Machine → String → Bool
has_uid [] uid = false
has_uid (m ∷ ms) uid = if str_eq m.uid uid then true else has_uid ms uid

-- No two of the machines have the same UID.
abbrev pub Distinct : List Machine → Type 0
Distinct [] = Unit
Distinct (m ∷ ms) = (has_uid ms m.uid ≡ false) × Distinct ms

abbrev is_some : Option (Unit {0}) → Bool
is_some none = false
is_some (some u) = true

uid_set-get :
    (found : Dict (Unit {0})) (ms : List Machine) (uid : String)
    → is_some (get (uid_set found ms) uid)
      ≡ (if has_uid ms uid then true else is_some (get found uid))
unfolding uid_set has_uid
uid_set-get found [] uid = refl
uid_set-get found (m ∷ ms) uid =
    ground (arith, uid_set-get (put found m.uid tt) ms uid, get-put found m.uid tt uid)

is_some-get :
    (existing : List Machine) (uid : String)
    → is_some (get (uid_set [] existing) uid) ≡ has_uid existing uid
unfolding get
is_some-get existing uid = ground (arith, uid_set-get [] existing uid)

all_found-cons :
    (found : Dict (Unit {0})) (m : Machine) (ms : List Machine)
    → all_found found (m ∷ ms) ≡ (is_some (get found m.uid) && all_found found ms)
unfolding all_found
all_found-cons found m ms = elim (Option-cases (get found m.uid)) [
  | inl e ↦ rw (e, all_found)
  | inr (u, e) ↦ rw (e, all_found)
]

and_iff : (a b : Bool) → ((a && b) ≡ true) ↔ ((a ≡ true) × (b ≡ true))
and_iff a b = (λ h. ground arith, λ h. ground arith)

all_found_iff :
    (existing ms : List Machine)
    → (all_found (uid_set [] existing) ms ≡ true) ↔ All (λ m. has_uid existing m.uid ≡ true) ms
all_found_iff existing [] = (λ h. tt, λ h. unfold all_found in refl)
all_found_iff existing (m ∷ ms) =
    rw (all_found-cons (uid_set [] existing) m ms, is_some-get existing m.uid)
      (
        λ h. let (here, rest) = (and_iff _ _).0 h in (here, (all_found_iff existing ms).0 rest),
        λ (here, rest). (and_iff _ _).1 (here, (all_found_iff existing ms).1 rest),
      )

-- the machines without the first of a UID
without : String → List Machine → List Machine
without uid [] = []
without uid (m ∷ ms) = let rest = without uid ms in if str_eq m.uid uid then ms else m ∷ rest

length-without :
    (uid : String) (ms : List Machine)
    → has_uid ms uid ≡ true
    → suc (length (without uid ms)) ≡ length ms
unfolding without has_uid
length-without uid [] h = cc
length-without uid (m ∷ ms) h = ground (arith, length-without uid ms)

has_uid-without :
    (uid other : String) (ms : List Machine)
    → str_eq uid other ≡ false
    → has_uid ms other ≡ true
    → has_uid (without uid ms) other ≡ true
unfolding without has_uid
has_uid-without uid other [] ne h = h
has_uid-without uid other (m ∷ ms) ne h =
    ground
      (arith, has_uid-without uid other ms, eq_iff m.uid uid, eq_iff m.uid other, eq_iff uid other)

still_there :
    (uid : String) (existing ms : List Machine)
    → has_uid ms uid ≡ false
    → All (λ m. has_uid existing m.uid ≡ true) ms
    → All (λ m. has_uid (without uid existing) m.uid ≡ true) ms
unfolding has_uid
still_there uid existing [] fresh all = tt
still_there uid existing (m ∷ ms) fresh (here, rest) = (
  has_uid-without uid m.uid existing (ground (arith, eq_iff uid m.uid, eq_iff m.uid uid)) here,
  still_there uid existing ms (ground arith) rest,
)

-- Distinct machines that all exist are no more than the existing ones.
pigeonhole :
    (existing ms : List Machine)
    → Distinct ms
    → All (λ m. has_uid existing m.uid ≡ true) ms
    → length ms ≤ length existing
pigeonhole existing [] d all = omega arith
pigeonhole existing (m ∷ ms) (fresh, d) (here, rest) = omega (
  arith,
  length-without m.uid existing here,
  pigeonhole (without m.uid existing) ms d (still_there m.uid existing ms fresh rest),
)

-- If the answer is yes, each of the machines has its UID among the existing machines; and if
-- that is so and no two of them share a UID, the answer is yes, whatever the lengths are.
pub machines_present_iff :
    (existing ms : List Machine)
    → ((machines_present existing ms ≡ true) → All (λ m. has_uid existing m.uid ≡ true) ms)
      × (Distinct ms
          → All (λ m. has_uid existing m.uid ≡ true) ms
          → machines_present existing ms ≡ true)
unfolding machines_present
machines_present_iff existing ms = (
  λ h. (all_found_iff existing ms).0 (ground arith),
  λ d all.
      let fits = pigeonhole existing ms d all in
      let found = (all_found_iff existing ms).1 all in ground arith,
)
