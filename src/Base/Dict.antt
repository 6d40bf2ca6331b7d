-- ===== src/Base/Dict.antt =====
-- Go's map with text keys, as an association list: at most the first entry of a key counts.
use autoscale_tests.Base.Tests.{str_eq, if◌then◌else◌, eq_refl, Bool-cases}
use mathlib.Core.Path.{◌≡◌, refl, subst}
use mathlib.Core.Option.{Option, none, some, some-injective}
use mathlib.Core.Logic.{inl, inr}
use autoscale_tests.Base.Lists.{All}
use mathlib.Core.List.{List, [], ◌∷◌}
use Prim.Native.String.{String}
use native.Mathlib.Omega.{arith}
use text.Mathlib.TextEquality.{eq_iff}

abbrev pub Dict {ℓ} : Type ℓ → Type ℓ
Dict V = List (String × V)

module _ {ℓ} {V : Type ℓ} where
  -- v, ok := m[k]
  unfoldable pub get : Dict V → String → Option V
  get [] k = none
  get ((j, v) ∷ m) k = if str_eq j k then some v else get m k

  -- m[k] = v
  unfoldable pub put : Dict V → String → V → Dict V
  put [] k v = (k, v) ∷ []
  put ((j, w) ∷ m) k v = if str_eq j k then (k, v) ∷ m else (j, w) ∷ put m k v

  -- delete(m, k)
  unfoldable pub remove : Dict V → String → Dict V
  remove [] k = []
  remove ((j, w) ∷ m) k = let rest = remove m k in if str_eq j k then rest else (j, w) ∷ rest

  pub get-put :
      (m : Dict V) (k : String) (v : V) (j : String)
      → get (put m k v) j ≡ (if str_eq k j then some v else get m j)
  unfolding get put
  get-put [] k v j = refl
  get-put ((i, w) ∷ m) k v j = ground (arith, eq_iff k j, eq_iff i k, eq_iff i j, get-put m k v j)

  pub get-put_self : (m : Dict V) (k : String) (v : V) → get (put m k v) k ≡ some v
  get-put_self m k v = simp (get-put, eq_refl)

  pub get-remove :
      (m : Dict V) (k j : String) → get (remove m k) j ≡ (if str_eq k j then none else get m j)
  unfolding get remove
  get-remove [] k j = ground arith
  get-remove ((i, w) ∷ m) k j = ground (arith, eq_iff k j, eq_iff i k, eq_iff i j, get-remove m k j)

pub ruleset dict_laws = (get-put, get-remove)

-- What every entry has, a value that is found has.
pub get-All {ℓ} :
    {V : Type ℓ} (P : V → Type ℓ) (m : Dict V) (k : String) {v : V}
    → All (λ (e : String × V). P e.1) m
    → get m k ≡ some v
    → P v
unfolding get
get-All P [] k all h = cc
get-All P ((j, w) ∷ m) k {v} all h = elim (Bool-cases (str_eq j k)) [
  | inl e ↦
      let found : some w ≡ some v = rw (e, get) at h in subst P (some-injective w v found) all.0
  | inr e ↦ get-All P m k all.1 (rw (e, get) at h)
]
