-- ===== src/Framework/Keda/Pause.antt =====
-- Pausing a ScaledObject and resuming it.
use autoscale_tests.Base.{
  String, ◌≡◌, refl, false, Option, none, some, str_eq, if◌then◌else◌, arith,
}
use autoscale_tests.Base.Dict.{get, remove, get-put, get-remove}
use autoscale_tests.Objects.{Labels}
use autoscale_tests.Objects.Autoscaling.{ScaledObject}
use autoscale_tests.Framework.Keda.{annotations_of, paused_key, paused, resumed}

abbrev pub annotation : ScaledObject → String → Option String
annotation so k = get (annotations_of so.annotations) k

paused-annotation :
    (replicas : String) (so : ScaledObject) (k : String)
    → annotation (paused replicas so) k
      ≡ (if str_eq paused_key k then some replicas else annotation so k)
unfolding paused
paused-annotation replicas so k = get-put (annotations_of so.annotations) paused_key replicas k

resumed-annotation :
    (so : ScaledObject) (k : String)
    → annotation (resumed so) k ≡ (if str_eq paused_key k then none else annotation so k)
unfolding resumed get
resumed-annotation so k = go so.annotations
  where
    go :
        (a : Option Labels)
        → get (annotations_of (elim a [ none ↦ none | some m ↦ some (remove m paused_key) ])) k
          ≡ (if str_eq paused_key k then none else get (annotations_of a) k)
    go none = ground arith
    go (some m) = get-remove m paused_key k

-- Pausing sets the one annotation to the given text. Resuming after it removes that annotation.
-- Every other annotation is at both times what it was before, and so is every other field.
pub pause_resume :
    (replicas : String) (so : ScaledObject)
    → (annotation (paused replicas so) paused_key ≡ some replicas)
      × (annotation (resumed (paused replicas so)) paused_key ≡ none)
      × ((k : String)
          → str_eq paused_key k ≡ false
          → (annotation (paused replicas so) k ≡ annotation so k)
            × (annotation (resumed (paused replicas so)) k ≡ annotation so k))
      × (record (paused replicas so) { annotations = so.annotations } ≡ so)
      × (record (resumed (paused replicas so)) { annotations = so.annotations } ≡ so)
unfolding paused resumed
pause_resume replicas so = (
  rw paused-annotation,
  rw resumed-annotation,
  λ k other. (simp (paused-annotation, other), simp (resumed-annotation, paused-annotation, other)),
  refl,
  refl,
)
