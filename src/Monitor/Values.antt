-- ===== src/Monitor/Values.antt =====
-- The comparison of two lists of values.
use dnsmon.Base.{
  ◌≡◌, sym, ap, ◌∙◌, ◌↔◌, List, [], ◌∷◌, Text, arith, true, text_eq_iff, length, sort_texts,
  sort_texts_iff, length-sort_texts, SameTexts,
}
use dnsmon.Monitor.{all_equal, normalize, set_equal}

all_equal_iff : (xs ys : List Text) → length xs ≡ length ys → (all_equal xs ys ≡ true) ↔ (xs ≡ ys)
unfolding all_equal
all_equal_iff [] [] h = ground arith
all_equal_iff [] (y ∷ ys) h = ground arith
all_equal_iff (x ∷ xs) [] h = ground arith
all_equal_iff (x ∷ xs) (y ∷ ys) h =
    ground (arith, text_eq_iff x y, all_equal_iff xs ys (omega (arith, h)))

pub length-of-SameTexts : (xs ys : List Text) → SameTexts xs ys → length xs ≡ length ys
length-of-SameTexts xs ys same =
    sym (length-sort_texts xs) ∙ ap length ((sort_texts_iff xs ys).1 same) ∙ length-sort_texts ys

-- `setEqual` holds exactly of two lists that have each text equally often.
pub set_equal_iff : (xs ys : List Text) → (set_equal xs ys ≡ true) ↔ SameTexts xs ys
unfolding set_equal normalize
set_equal_iff xs ys = (
  λ e.
      let h : length xs ≡ length ys = ground arith in
      (sort_texts_iff xs ys).0 (
        (all_equal_iff (sort_texts xs) (sort_texts ys)
            (length-sort_texts xs ∙ h ∙ sym (length-sort_texts ys))).0
          (ground arith)),
  λ same.
      let h = length-of-SameTexts xs ys same in
      let e =
        (all_equal_iff (sort_texts xs) (sort_texts ys)
            (length-sort_texts xs ∙ h ∙ sym (length-sort_texts ys))).1
          ((sort_texts_iff xs ys).1 same) in
      ground arith,
)
