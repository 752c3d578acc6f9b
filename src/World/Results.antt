-- ===== src/World/Results.antt =====
-- Results, errors and the two ways in which operations follow one another.
use dnsmon.Base.{◌≡◌, ap, Bool, true, false, ◌++◌, Text, bytes}

-- `fmt.Errorf` with a text, or with a text in front of `: %w`.
pub data Error : Type 0 where
  not_found : Error
  failed : Text → Error
  wrap : Text → Error → Error

-- `err.Error()`
unfoldable pub error_text : Error → Text
unfolding bytes
error_text not_found = bytes "not found"
error_text (failed message) = message
error_text (wrap message e) = message ++ bytes ": " ++ error_text e

-- `errors.Is(err, storage.ErrNotFound)`
unfoldable pub is_not_found : Error → Bool
is_not_found not_found = true
is_not_found (failed message) = false
is_not_found (wrap message e) = is_not_found e

-- A value with a nil error, or an error.
pub data Result (A : Type 0) : Type 0 where
  ok : A → Result A
  err : Error → Result A

-- What acts on the world and returns a value.
abbrev pub Action : (W A : Type 0) → Type 0
Action W A = W → A × W

module _ {W A B : Type 0} where
  infixl 5 ◌>>=◌
  abbrev pub ◌>>=◌ : Action W A → (A → Action W B) → Action W B
  ◌>>=◌ m f w = let (a, w') = m w in f a w'

abbrev pub pure : {W A : Type 0} → A → Action W A
pure a w = (a, w)

abbrev pub ok_or : {A : Type 0} → A → Result A → A
ok_or a (ok b) = b
ok_or a (err e) = a

pub ok-injective : {A : Type 0} → (a b : A) → ok a ≡ ok b → a ≡ b
ok-injective a b e = ap (ok_or a) e

pub err≢ok : {A : Type 0} → (e : Error) → (a : A) → ¬ (err e ≡ ok a)
err≢ok e a p = cc
