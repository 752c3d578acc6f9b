-- ===== src/Storage/Tables.antt =====
-- What the stores rely on in a SQL database and in the JSON encoding: each table with a key `id` and a
-- column `data` is a map, which only the statements on the table change.
use dnsmon.Base.{
  ℕ, ◌≡◌, ◌↔◌, ◌⊎◌, List, Option, none, some, true, false, ◌&&◌, Text, bytes, lookup, member,
  text_eq, if◌then◌else◌, Bool,
}
use dnsmon.World.{Result, ok, err, is_not_found}
use dnsmon.Storage.{Value, Statement, Database, Codec}
use dnsmon.Storage.Rows.{select_data}

-- The `data` of a table, by key.
abbrev pub View : Type 0
View = Text → Text → Option Text

abbrev pub text_of : Option Value → Option Text
text_of (some (Value.text s)) = some s
text_of _ = none

abbrev both : Option Text → Option Text → Option (Text × Text)
both (some a) (some b) = some (a, b)
both _ _ = none

-- The key and the data of a row.
unfoldable pub keyed : List (Text × Value) → Option (Text × Text)
unfolding bytes lookup
keyed row = both (text_of (lookup (bytes "id") row)) (text_of (lookup (bytes "data") row))

abbrev pub SameView : View → View → Type 0
SameView v v' = (t k : Text) → v' t k ≡ v t k

-- Only the table `t` may differ.
abbrev Others : Text → View → View → Type 0
Others t v v' = (t' k : Text) → (text_eq t t' ≡ true) ⊎ (v' t' k ≡ v t' k)

-- One entry is written: with `none` it is gone.
abbrev pub Changed : Text → Text → Option Text → View → View → Type 0
Changed t id d v v' = (t' k : Text) → v' t' k ≡ (if text_eq t t' && text_eq id k then d else v t' k)

abbrev pub Stored : Text → Option (Text × Text) → View → View → Type 0
Stored t none v v' = Others t v v'
Stored t (some r) v v' = Changed t r.0 (some r.1) v v'

abbrev pub Removed : Bool → Text → Option Text → ℕ → View → View → Type 0
Removed true t (some id) n v v' = Changed t id none v v' × ((n ≡ 0) ↔ (v t id ≡ none))
Removed _ t _ n v v' = Others t v v'

-- What a statement that succeeded has done, with `n` rows affected.
unfoldable pub Effect : Statement → ℕ → View → View → Type 0
unfolding bytes member text_eq keyed
Effect (Statement.insert t row) n v v' = Others t v v'
Effect (Statement.replace t row) n v v' = Stored t (keyed row) v v'
Effect (Statement.upsert t row columns) n v v' =
    Stored t (if member (bytes "data") columns then keyed row else none) v v'
Effect (Statement.delete_equal t c value) n v v' =
    Removed (text_eq c (bytes "id")) t (text_of (some value)) n v v'
Effect (Statement.delete_less t c value) n v v' = Others t v v'
Effect (Statement.delete_days t c value) n v v' = Others t v v'

-- The drivers count the affected rows, their errors are their own, and a statement that failed has
-- changed nothing.
abbrev pub Ran : Result (Result ℕ) → Statement → View → View → Type 0
Ran (err e) s v v' = SameView v v' × (is_not_found e ≡ false)
Ran (ok (err e)) s v v' = ⊥
Ran (ok (ok n)) s v v' = Effect s n v v'

abbrev pub Found : Result (Option Text) → Option Text → Type 0
Found (err e) d = is_not_found e ≡ false
Found (ok o) d = o ≡ d

pub record IsSql {W T : Type 0} (db : Database W T) (view : W → View) : Type 0 where
  pub exec_runs : (s : Statement) (w : W) → let (r, w') = db.exec s w in Ran r s (view w) (view w')
  pub query_row_finds :
      (t id : Text) (w : W)
      → let (r, w') = db.query_row (select_data t (Value.text id)) w in
        Found r (view w t id) × SameView (view w) (view w')

module _ {A : Type 0} (codec : Codec A) where
  abbrev pub Encoded : A → Result Text → Type 0
  Encoded a (err e) = is_not_found e ≡ false
  Encoded a (ok blob) = codec.unmarshal blob ≡ ok a

  abbrev pub Decoded : Result A → Type 0
  Decoded (err e) = is_not_found e ≡ false
  Decoded (ok a) = Unit

  -- What is encoded is decoded again, and the errors are the library's own.
  pub record IsCodec : Type 0 where
    pub encodes : (a : A) → Encoded a (codec.marshal a)
    pub decodes : (blob : Text) → Decoded (codec.unmarshal blob)
