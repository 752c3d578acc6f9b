-- ===== src/Storage/Views.antt =====
-- The documents that the data of a table stand for.
use dnsmon.Base.{
  ◌≡◌, refl, sym, ap, ◌∙◌, Option, none, some, Bool, true, false, ◌&&◌, Text, text_eq, text_eq_refl,
  if◌then◌else◌,
}
use dnsmon.World.{Result, ok, err}
use dnsmon.Storage.{Codec}
use dnsmon.Storage.Documents.{Same, put}
use dnsmon.Storage.Tables.{View, SameView, Changed}

none≢some : {A : Type 0} → (a : A) → ¬ (none ≡ some a)
none≢some a e = cc

module _ {A : Type 0} (codec : Codec A) where
  abbrev pub result_option : Result A → Option A
  result_option (ok a) = some a
  result_option (err e) = none

  abbrev pub decoded : Option Text → Option A
  decoded none = none
  decoded (some blob) = result_option (codec.unmarshal blob)

  -- The documents of a table.
  abbrev pub documents : Text → View → Text → Option A
  documents t v k = decoded (v t k)

  abbrev Readable : Option Text → Type 0
  Readable none = Unit
  Readable (some blob) = (a : A) × (codec.unmarshal blob ≡ ok a)

  -- All data of the table decode.
  abbrev pub IsReadable : Text → View → Type 0
  IsReadable t v = (k : Text) → Readable (v t k)

  pub documents-Same :
      (t : Text) (v v' : View) → SameView v v' → Same (documents t v) (documents t v')
  documents-Same t v v' h k = ap decoded (h t k)

  pub IsReadable-SameView :
      (t : Text) (v v' : View) → SameView v v' → IsReadable t v → IsReadable t v'
  IsReadable-SameView t v v' h r k = rw (h t k) (r k)

  here :
      (t id k : Text) (v v' : View) (d : Option Text)
      → Changed t id d v v'
      → v' t k ≡ (if text_eq id k then d else v t k)
  here t id k v v' d h = h t k ∙ ap (λ b. if b && text_eq id k then d else v t k) (text_eq_refl t)

  decoded-if :
      (b : Bool) (d e : Option Text)
      → decoded (if b then d else e) ≡ (if b then decoded d else decoded e)
  decoded-if true d e = refl
  decoded-if false d e = refl

  Readable-if :
      (b : Bool) (d e : Option Text) → Readable d → Readable e → Readable (if b then d else e)
  Readable-if true d e h i = h
  Readable-if false d e h i = i

  pub documents-Changed :
      (t id : Text) (d : Option Text) (v v' : View)
      → Changed t id d v v'
      → (k : Text) → documents t v' k ≡ (if text_eq id k then decoded d else documents t v k)
  documents-Changed t id d v v' h k =
      ap decoded (here t id k v v' d h) ∙ decoded-if (text_eq id k) d (v t k)

  pub IsReadable-Changed :
      (t id : Text) (d : Option Text) (v v' : View)
      → Changed t id d v v'
      → Readable d
      → IsReadable t v
      → IsReadable t v'
  IsReadable-Changed t id d v v' h i r k =
      rw (here t id k v v' d h) (Readable-if (text_eq id k) d (v t k) i (r k))

  pub documents-put :
      (t id blob : Text) (a : A) (v v' : View)
      → Changed t id (some blob) v v'
      → codec.unmarshal blob ≡ ok a
      → Same (put id a (documents t v)) (documents t v')
  documents-put t id blob a v v' h e k =
      documents-Changed t id (some blob) v v' h k
      ∙ ap (λ r. if text_eq id k then result_option r else documents t v k) e

  pub found_none : (o : Option Text) → Readable o → decoded o ≡ none → o ≡ none
  found_none none r e = refl
  found_none (some blob) r e = absurd (none≢some r.0 (sym e ∙ ap result_option r.1))
