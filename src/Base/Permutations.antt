-- ===== src/Base/Permutations.antt =====
-- What a rearrangement keeps.
use Prim.Native.Nat.{suc}
use mathlib.Core.Path.{◌≡◌, refl, ap, ◌∙◌, subst}
use mathlib.Core.Logic.{∥∥₁_elim}
use mathlib.Core.HLevel.{×_prop, Unit-prop}
use mathlib.Core.List.{List, [], ◌∷◌, Perm, Permᴰ}
use native.Mathlib.Nat.{ℕ_set}
use dnsmon.Base.Lists.{All, length}

module _ {ℓ κ} {A : Type ℓ} (P : A → Type κ) where
  All-prop : ((a : A) → IsProp (P a)) → (l : List A) → IsProp (All P l)
  All-prop p [] = Unit-prop
  All-prop p (x ∷ xs) = ×_prop (p x) (All-prop p xs)

  All-Permᴰ : (l r : List A) → Permᴰ l r → All P l → All P r
  All-Permᴰ l r Permᴰ.nil h = tt
  All-Permᴰ l r (Permᴰ.cons {l₁ = xs} {l₂ = ys} e d) h = (subst P e h.0, All-Permᴰ xs ys d h.1)
  All-Permᴰ l r (Permᴰ.swap e f) h = (subst P f h.1.0, (subst P e h.0, h.1.1))
  All-Permᴰ l r (Permᴰ.trans {l₂ = m} d e) h = All-Permᴰ m r e (All-Permᴰ l m d h)

  pub All-perm : ((a : A) → IsProp (P a)) → (l r : List A) → Perm l r → All P l → All P r
  All-perm p l r d h = ∥∥₁_elim d (All-prop p r) (λ q. All-Permᴰ l r q h)

module _ {ℓ} {A : Type ℓ} where
  length-Permᴰ : (l r : List A) → Permᴰ l r → length l ≡ length r
  length-Permᴰ l r Permᴰ.nil = refl
  length-Permᴰ l r (Permᴰ.cons {l₁ = xs} {l₂ = ys} e d) = ap suc (length-Permᴰ xs ys d)
  length-Permᴰ l r (Permᴰ.swap e f) = refl
  length-Permᴰ l r (Permᴰ.trans {l₂ = m} d e) = length-Permᴰ l m d ∙ length-Permᴰ m r e

  pub length-perm : (l r : List A) → Perm l r → length l ≡ length r
  length-perm l r d = ∥∥₁_elim d (ℕ_set _ _) (length-Permᴰ l r)
