-- ===== src/Base/Reordered.antt =====
-- Lists that an API may give in any order: what is the same for all orders.
use Prim.Native.Nat.{suc}
use Prim.Native.String.{String}
use mathlib.Core.Path.{◌≡◌, refl, sym, ap, ◌∙◌, subst}
use mathlib.Core.Logic.{inl, inr, ∥∥₁_elim}
use mathlib.Core.Bool.{Bool}
pub use mathlib.Core.List.{Perm}
use mathlib.Core.List.{List, Permᴰ}
use mathlib.Core.List.Permᴰ
use native.Mathlib.Omega.{arith}
use autoscale_tests.Base.Tests.{Bool-cases}
use autoscale_tests.Base.Lists.{length, keep, all, any}
use autoscale_tests.Base.Result.{wrap, Result, ok, err, M, continue, wrapped}

module _ {A : Type 0} where
  any-Permᴰ : (p : A → Bool) {xs ys : List A} → Permᴰ xs ys → any p xs ≡ any p ys
  unfolding any
  any-Permᴰ p Permᴰ.nil = refl
  any-Permᴰ p (Permᴰ.cons e d) = ground (arith, ap p e, any-Permᴰ p d)
  any-Permᴰ p (Permᴰ.swap e f) = ground (arith, ap p e, ap p f)
  any-Permᴰ p (Permᴰ.trans d d') = any-Permᴰ p d ∙ any-Permᴰ p d'

  all-Permᴰ : (p : A → Bool) {xs ys : List A} → Permᴰ xs ys → all p xs ≡ all p ys
  unfolding all
  all-Permᴰ p Permᴰ.nil = refl
  all-Permᴰ p (Permᴰ.cons e d) = ground (arith, ap p e, all-Permᴰ p d)
  all-Permᴰ p (Permᴰ.swap e f) = ground (arith, ap p e, ap p f)
  all-Permᴰ p (Permᴰ.trans d d') = all-Permᴰ p d ∙ all-Permᴰ p d'

  length-Permᴰ : {xs ys : List A} → Permᴰ xs ys → length xs ≡ length ys
  length-Permᴰ Permᴰ.nil = refl
  length-Permᴰ (Permᴰ.cons e d) = ap suc (length-Permᴰ d)
  length-Permᴰ (Permᴰ.swap e f) = refl
  length-Permᴰ (Permᴰ.trans d d') = length-Permᴰ d ∙ length-Permᴰ d'

  keep-Permᴰ : (p : A → Bool) {xs ys : List A} → Permᴰ xs ys → Permᴰ (keep p xs) (keep p ys)
  unfolding keep
  keep-Permᴰ p Permᴰ.nil = Permᴰ.nil
  keep-Permᴰ p (Permᴰ.cons {a = a} e d) = elim (Bool-cases (p a)) [
    | inl h ↦ rw (h, ap p (sym e) ∙ h) (Permᴰ.cons e (keep-Permᴰ p d))
    | inr h ↦ rw (h, ap p (sym e) ∙ h) (keep-Permᴰ p d)
  ]
  keep-Permᴰ p (Permᴰ.swap {a = a} {b = b} {l = l} e f) = elim (Bool-cases (p a)) [
    | inl h ↦ elim (Bool-cases (p b)) [
      | inl k ↦ rw (h, k, ap p (sym e) ∙ h, ap p (sym f) ∙ k) (Permᴰ.swap e f)
      | inr k ↦ rw (h, k, ap p (sym e) ∙ h, ap p (sym f) ∙ k) (Permᴰ.cons e (Permᴰ.refl _))
    ]
    | inr h ↦ elim (Bool-cases (p b)) [
      | inl k ↦ rw (h, k, ap p (sym e) ∙ h, ap p (sym f) ∙ k) (Permᴰ.cons f (Permᴰ.refl _))
      | inr k ↦ rw (h, k, ap p (sym e) ∙ h, ap p (sym f) ∙ k) (Permᴰ.refl _)
    ]
  ]
  keep-Permᴰ p (Permᴰ.trans d d') = Permᴰ.trans (keep-Permᴰ p d) (keep-Permᴰ p d')

module _ {A : Type 0} {xs ys : List A} (s : Perm xs ys) where
  pub any-perm : (p : A → Bool) → any p xs ≡ any p ys
  any-perm p = ∥∥₁_elim s (hlevel) (λ d. any-Permᴰ p d)

  pub all-perm : (p : A → Bool) → all p xs ≡ all p ys
  all-perm p = ∥∥₁_elim s (hlevel) (λ d. all-Permᴰ p d)

  pub length-perm : length xs ≡ length ys
  length-perm = ∥∥₁_elim s (hlevel) length-Permᴰ

  pub keep-perm : (p : A → Bool) → Perm (keep p xs) (keep p ys)
  keep-perm p = ∥∥₁_elim s (hlevel) (λ d. ∣ keep-Permᴰ p d ∣₁)

-- Two answers that differ at most in the order of a list.
abbrev pub Reordered : {A : Type 0} → Result (List A) → Result (List A) → Type 0
Reordered (ok xs) (ok ys) = Perm xs ys
Reordered (err e) (err f) = e ≡ f
Reordered (ok xs) (err f) = ⊥
Reordered (err e) (ok ys) = ⊥

abbrev pub AreReordered : {A W : Type 0} → Result (List A) × W → Result (List A) × W → Type 0
AreReordered p q = Reordered p.0 q.0 × (p.1 ≡ q.1)

module _ {W A : Type 0} where
  pub wrapped-AreReordered :
      (text : String) (p q : Result (List A) × W)
      → AreReordered p q
      → AreReordered (wrapped text p.0, p.1) (wrapped text q.0, q.1)
  wrapped-AreReordered text (ok xs, w) (ok ys, v) r = r
  wrapped-AreReordered text (err e, w) (err f, v) (same, state) = (ap (wrap text) same, state)
  wrapped-AreReordered text (ok xs, w) (err f, v) (never, state) = absurd never
  wrapped-AreReordered text (err e, w) (ok ys, v) (never, state) = absurd never

module _ {W A B : Type 0} where
  -- What goes on in the same way with every order of an answer gives the same.
  pub continue_reordered :
      (p q : Result (List A) × W) (f g : List A → M W B)
      → AreReordered p q
      → ((xs ys : List A) → Perm xs ys → (w : W) → f xs w ≡ g ys w)
      → continue p.0 f p.1 ≡ continue q.0 g q.1
  continue_reordered (ok xs, w) (ok ys, v) f g (s, state) k = k xs ys s w ∙ ap (g ys) state
  continue_reordered (err e, w) (err f', v) f g (same, state) k = cc
  continue_reordered (ok xs, w) (err f', v) f g (never, state) k = absurd never
  continue_reordered (err e, w) (ok ys, v) f g (never, state) k = absurd never

  pub continue-AreReordered :
      (p q : Result (List A) × W) (f g : List A → M W (List B))
      → AreReordered p q
      → ((xs ys : List A) → Perm xs ys → (w : W) → AreReordered (f xs w) (g ys w))
      → AreReordered (continue p.0 f p.1) (continue q.0 g q.1)
  continue-AreReordered (ok xs, w) (ok ys, v) f g (s, state) k =
      subst (λ u. AreReordered (f xs w) (g ys u)) state (k xs ys s w)
  continue-AreReordered (err e, w) (err f', v) f g r k = r
  continue-AreReordered (ok xs, w) (err f', v) f g (never, state) k = absurd never
  continue-AreReordered (err e, w) (ok ys, v) f g (never, state) k = absurd never
