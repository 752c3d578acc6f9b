-- ===== src/Base/Sort.antt =====
-- `sort.Strings`: the texts in ascending order, byte by byte. A total order leaves one sorted list
-- for the same items, so the way of sorting does not show.
use Prim.Native.Nat.{ℕ, suc, ◌<◌}
use mathlib.Core.Path.{◌≡◌, refl, ap, ap₂, ◌∙◌, sym}
use mathlib.Core.Logic.{◌↔◌, inl, inr}
use mathlib.Core.Bool.{true, false}
use mathlib.Core.List.{List, [], ◌∷◌}
use native.Mathlib.Omega.{arith}
use dnsmon.Base.Tests.{if◌then◌else◌, Bool-cases}
use dnsmon.Base.Lists.{All, length}
use dnsmon.Base.Strings.{Text, text_eq, text_eq_iff, text_eq_refl, text_le}

insert_text : Text → List Text → List Text
insert_text x [] = x ∷ []
insert_text x (y ∷ ys) = if text_le x y then x ∷ y ∷ ys else y ∷ insert_text x ys

unfoldable pub sort_texts : List Text → List Text
unfolding insert_text
sort_texts [] = []
sort_texts (x ∷ xs) = insert_text x (sort_texts xs)

-- How often a text occurs.
unfoldable pub count_text : Text → List Text → ℕ
count_text k [] = 0
count_text k (x ∷ xs) = if text_eq x k then suc (count_text k xs) else count_text k xs

-- The same texts, as often, in any order.
abbrev pub SameTexts : List Text → List Text → Type 0
SameTexts xs ys = (k : Text) → count_text k xs ≡ count_text k ys

text_le_total : (a b : Text) → text_le a b ≡ false → text_le b a ≡ true
unfolding text_le
text_le_total [] ys h = ground arith
text_le_total (x ∷ xs) [] h = refl
text_le_total (x ∷ xs) (y ∷ ys) h = ground (arith, text_le_total xs ys)

text_le_trans : (a b c : Text) → text_le a b ≡ true → text_le b c ≡ true → text_le a c ≡ true
unfolding text_le
text_le_trans [] ys zs h k = refl
text_le_trans (x ∷ xs) [] zs h k = ground arith
text_le_trans (x ∷ xs) (y ∷ ys) [] h k = ground arith
text_le_trans (x ∷ xs) (y ∷ ys) (z ∷ zs) h k = ground (arith, text_le_trans xs ys zs)

text_le_antisymm : (a b : Text) → text_le a b ≡ true → text_le b a ≡ true → a ≡ b
unfolding text_le
text_le_antisymm [] [] h k = refl
text_le_antisymm [] (y ∷ ys) h k = ground arith
text_le_antisymm (x ∷ xs) [] h k = ground arith
text_le_antisymm (x ∷ xs) (y ∷ ys) h k = ground (arith, text_le_antisymm xs ys)

text_le_refl : (a : Text) → text_le a a ≡ true
text_le_refl a = elim (Bool-cases (text_le a a)) [ inl h ↦ h | inr h ↦ text_le_total a a h ]

abbrev Below : Text → List Text → Type 0
Below x = All (λ y. text_le x y ≡ true)

abbrev IsSorted : List Text → Type 0
IsSorted [] = Unit
IsSorted (x ∷ xs) = Below x xs × IsSorted xs

Below-trans : (x y : Text) (ys : List Text) → text_le x y ≡ true → Below y ys → Below x ys
Below-trans x y [] h b = tt
Below-trans x y (z ∷ zs) h b = (text_le_trans x y z h b.0, Below-trans x y zs h b.1)

Below-insert_text :
    (x y : Text) (ys : List Text) → text_le y x ≡ true → Below y ys → Below y (insert_text x ys)
unfolding insert_text
Below-insert_text x y [] h b = (h, tt)
Below-insert_text x y (z ∷ zs) h b = elim (Bool-cases (text_le x z)) [
  | inl e ↦ rw e (h, b)
  | inr e ↦ rw e (b.0, Below-insert_text x y zs h b.1)
]

insert_text-IsSorted : (x : Text) (ys : List Text) → IsSorted ys → IsSorted (insert_text x ys)
unfolding insert_text
insert_text-IsSorted x [] s = (tt, tt)
insert_text-IsSorted x (y ∷ ys) s = elim (Bool-cases (text_le x y)) [
  | inl e ↦ rw e ((e, Below-trans x y ys e s.0), s)
  | inr e ↦ rw e (Below-insert_text x y ys (text_le_total x y e) s.0, insert_text-IsSorted x ys s.1)
]

sort_texts-IsSorted : (xs : List Text) → IsSorted (sort_texts xs)
unfolding sort_texts
sort_texts-IsSorted [] = tt
sort_texts-IsSorted (x ∷ xs) = insert_text-IsSorted x (sort_texts xs) (sort_texts-IsSorted xs)

count_text-insert_text :
    (k x : Text) (ys : List Text) → count_text k (insert_text x ys) ≡ count_text k (x ∷ ys)
unfolding insert_text count_text
count_text-insert_text k x [] = refl
count_text-insert_text k x (y ∷ ys) = ground (arith, count_text-insert_text k x ys)

-- Sorting keeps every text as often as it occurs.
pub count_text-sort_texts :
    (k : Text) (xs : List Text) → count_text k (sort_texts xs) ≡ count_text k xs
unfolding sort_texts count_text
count_text-sort_texts k [] = refl
count_text-sort_texts k (x ∷ xs) =
    ground (arith, count_text-insert_text k x (sort_texts xs), count_text-sort_texts k xs)

Below-count_text :
    (x k : Text) (ys : List Text) → Below x ys → 0 < count_text k ys → text_le x k ≡ true
unfolding count_text
Below-count_text x k [] b h = absurd (omega arith)
Below-count_text x k (y ∷ ys) b h = ground (arith, text_eq_iff y k, Below-count_text x k ys b.1)

count_text_self : (x : Text) (xs : List Text) → 0 < count_text x (x ∷ xs)
unfolding count_text
count_text_self x xs = ground (arith, text_eq_refl x)

head_le :
    (x y : Text) (xs ys : List Text)
    → IsSorted (y ∷ ys)
    → SameTexts (x ∷ xs) (y ∷ ys)
    → text_le y x ≡ true
head_le x y xs ys s same =
    Below-count_text y x (y ∷ ys) (text_le_refl y, s.0)
      (omega (arith, same x, count_text_self x xs))

SameTexts-tail : (x : Text) (xs ys : List Text) → SameTexts (x ∷ xs) (x ∷ ys) → SameTexts xs ys
unfolding count_text
SameTexts-tail x xs ys same k = ground (arith, same k)

count_text_nil : (k : Text) → count_text k [] ≡ 0
unfolding count_text
count_text_nil k = refl

-- Two sorted lists of the same texts are equal.
eq_of_SameTexts : (xs ys : List Text) → IsSorted xs → IsSorted ys → SameTexts xs ys → xs ≡ ys
eq_of_SameTexts [] [] s t same = refl
eq_of_SameTexts [] (y ∷ ys) s t same =
    absurd (omega (arith, same y, count_text_self y ys, count_text_nil y))
eq_of_SameTexts (x ∷ xs) [] s t same =
    absurd (omega (arith, same x, count_text_self x xs, count_text_nil x))
eq_of_SameTexts (x ∷ xs) (y ∷ ys) s t same =
    let e =
      text_le_antisymm x y (head_le y x ys xs s (λ k. sym (same k))) (head_le x y xs ys t same) in
    ap₂ ◌∷◌ e (eq_of_SameTexts xs ys s.1 t.1 (SameTexts-tail x xs ys (rw (← e) at same)))

-- The sorted lists of two lists are equal exactly when these hold the same texts, as often.
pub sort_texts_iff : (xs ys : List Text) → (sort_texts xs ≡ sort_texts ys) ↔ SameTexts xs ys
sort_texts_iff xs ys = (
  λ e k. sym (count_text-sort_texts k xs) ∙ ap (count_text k) e ∙ count_text-sort_texts k ys,
  λ same.
      eq_of_SameTexts (sort_texts xs) (sort_texts ys) (sort_texts-IsSorted xs)
        (sort_texts-IsSorted ys)
        (λ k. count_text-sort_texts k xs ∙ same k ∙ sym (count_text-sort_texts k ys)),
)

length-insert_text : (x : Text) (ys : List Text) → length (insert_text x ys) ≡ suc (length ys)
unfolding insert_text
length-insert_text x [] = refl
length-insert_text x (y ∷ ys) = ground (arith, length-insert_text x ys)

pub length-sort_texts : (xs : List Text) → length (sort_texts xs) ≡ length xs
unfolding sort_texts
length-sort_texts [] = refl
length-sort_texts (x ∷ xs) = length-insert_text x (sort_texts xs) ∙ ap suc (length-sort_texts xs)
