-- ===== src/Storage/Steps.antt =====
-- What each kind of statement does to the documents of its table.
use mathlib.Core.Bool.{true≢false}
use dnsmon.Base.{
  ==_iff, ℕ, ◌≡◌, refl, sym, ap, ◌∙◌, inl, inr, Option, none, some, Bool, true, false, Text, bytes,
  text_eq, text_eq_iff, if◌then◌else◌, ◌==◌,
}
use dnsmon.World.{Result, ok, err, not_found, is_not_found}
use dnsmon.Storage.{Value, Statement, Database, Codec}
use dnsmon.Storage.Rows.{
  delete_events, unmarshaling, wrapped, read_row, write_data, done, deleted, deleted_check,
  select_data, affected,
}
use dnsmon.Storage.Documents.{Operation, Outcome, written, got, Allowed, Allowed-Same}
use dnsmon.Storage.Tables.{
  View, SameView, Changed, Removed, Effect, Ran, Found, IsSql, Encoded, Decoded, IsCodec,
}
use dnsmon.Storage.Views.{
  result_option, decoded, documents, IsReadable, documents-Same, IsReadable-SameView,
  documents-Changed, IsReadable-Changed, documents-put, found_none,
}

-- The statement that removes an id from a table.
unfoldable pub delete_id : Text → Text → Statement
unfolding bytes
delete_id t id = Statement.delete_equal t (bytes "id") (Value.text id)

-- The statement that removes the events of a monitor.
events_of : Text → Statement
unfolding bytes
events_of id = Statement.delete_equal (bytes "monitor_events") (bytes "monitor_id") (Value.text id)

module _ {W T A : Type 0} (db : Database W T) (view : W → View) (sql : IsSql db view)
    (codec : Codec A) (law : IsCodec codec) (id_of : A → Text) (t : Text) where
  -- What the operations of the table give, and that its data go on to decode.
  abbrev pub Kept : Operation A → Outcome A → View → View → Type 0
  Kept op o v v' =
      Allowed id_of (documents codec t v) op o (documents codec t v') × IsReadable codec t v'

  done-Kept :
      (message blob : Text) (a : A) (s : Statement) (r : Result (Result ℕ)) (v v' : View)
      → ((n : ℕ) → Effect s n v v' → Changed t (id_of a) (some blob) v v')
      → codec.unmarshal blob ≡ ok a
      → Ran r s v v'
      → IsReadable codec t v
      → Kept (Operation.save a) (written (done message r)) v v'
  unfolding done is_not_found
  done-Kept message blob a s (err e) v v' c u h i =
      ((documents-Same codec t v v' h.0, h.1), IsReadable-SameView codec t v v' h.0 i)
  done-Kept message blob a s (ok (err e)) v v' c u h i = absurd h
  done-Kept message blob a s (ok (ok n)) v v' c u h i = (
    documents-put codec t (id_of a) blob a v v' (c n h) u,
    IsReadable-Changed codec t (id_of a) (some blob) v v' (c n h) (a, u) i,
  )

  pub write_data-Kept :
      (kind message : Text) (a : A) (s : Text → Statement) (w : W)
      → ((blob : Text) (n : ℕ) (v v' : View)
          → Effect (s blob) n v v'
          → Changed t (id_of a) (some blob) v v')
      → IsReadable codec t (view w)
      → let (r, w') = write_data db kind message s (codec.marshal a) w in
        Kept (Operation.save a) (written r) (view w) (view w')
  unfolding write_data is_not_found
  write_data-Kept kind message a s w c i = go (codec.marshal a) (law.encodes a)
    where
      go :
          (m : Result Text)
          → Encoded codec a m
          → let (r, w') = write_data db kind message s m w in
            Kept (Operation.save a) (written r) (view w) (view w')
      go (err e) h = ((λ k. refl, h), i)
      go (ok blob) h =
          let (r, w') = db.exec (s blob) w in
          done-Kept message blob a (s blob) r (view w) (view w')
            (λ n. c blob n (view w) (view (db.exec (s blob) w).1)) h (sql.exec_runs (s blob) w) i

  read_row-Kept :
      (kind id : Text) (r : Result (Option Text)) (v v' : View)
      → Found r (v t id)
      → SameView v v'
      → IsReadable codec t v
      → Kept (Operation.get id) (got (read_row kind codec r)) v v'
  unfolding read_row wrapped is_not_found
  read_row-Kept kind id (err e) v v' f h i =
      ((documents-Same codec t v v' h, inl f), IsReadable-SameView codec t v v' h i)
  read_row-Kept kind id (ok none) v v' f h i = (
    (documents-Same codec t v v' h, inr (ap (decoded codec) (sym f))),
    IsReadable-SameView codec t v v' h i,
  )
  read_row-Kept kind id (ok (some blob)) v v' f h i =
      go (codec.unmarshal blob) refl (law.decodes blob)
    where
      go :
          (m : Result A)
          → codec.unmarshal blob ≡ m
          → Decoded codec m
          → Kept (Operation.get id) (got (wrapped (unmarshaling kind) m)) v v'
      go (err e) u d =
          ((documents-Same codec t v v' h, inl d), IsReadable-SameView codec t v v' h i)
      go (ok a) u d = (
        (documents-Same codec t v v' h, ap (decoded codec) (sym f) ∙ ap (result_option codec) u),
        IsReadable-SameView codec t v v' h i,
      )

  pub get-Kept :
      (kind id : Text) (w : W)
      → IsReadable codec t (view w)
      → let (r, w') = db.query_row (select_data t (Value.text id)) w in
        Kept (Operation.get id) (got (read_row kind codec r)) (view w) (view w')
  get-Kept kind id w i =
      let (r, w') = db.query_row (select_data t (Value.text id)) w in
      let (f, h) = sql.query_row_finds t id w in read_row-Kept kind id r (view w) (view w') f h i

  -- To remove what is not there changes nothing.
  drop_missing :
      (id k : Text) (m : Text → Option A) → m id ≡ none → (if text_eq id k then none else m k) ≡ m k
  drop_missing id k m e = go (text_eq id k) refl
    where
      go : (b : Bool) → text_eq id k ≡ b → (if b then none else m k) ≡ m k
      go true h = sym e ∙ ap m ((text_eq_iff id k).0 h)
      go false h = refl

  Removed-Kept :
      (id : Text) (n : ℕ) (b : Bool) (v v' : View)
      → (n == 0) ≡ b
      → Removed true t (some id) n v v'
      → IsReadable codec t v
      → Kept (Operation.delete id) (written (if b then err not_found else ok tt)) v v'
  Removed-Kept id n true v v' z h i =
      let e = ap (decoded codec) (h.1.0 ((==_iff n 0).0 z)) in
      (
        (
          λ k.
              documents-Changed codec t id none v v' h.0 k
              ∙ drop_missing id k (documents codec t v) e,
          inr e,
        ),
        IsReadable-Changed codec t id none v v' h.0 tt i,
      )
  Removed-Kept id n false v v' z h i =
      let none_then : documents codec t v id ≡ none → n ≡ 0 =
        λ e. h.1.1 (found_none codec (v t id) (i id) e) in
      (
        (
          documents-Changed codec t id none v v' h.0,
          λ e. true≢false (sym ((==_iff n 0).1 (none_then e)) ∙ z),
        ),
        IsReadable-Changed codec t id none v v' h.0 tt i,
      )

  pub deleted-Kept :
      (message id : Text) (r : Result (Result ℕ)) (v v' : View)
      → Ran r (delete_id t id) v v'
      → IsReadable codec t v
      → Kept (Operation.delete id) (written (deleted message r)) v v'
  unfolding deleted affected is_not_found delete_id Effect text_eq
  deleted-Kept message id (err e) v v' h i =
      ((documents-Same codec t v v' h.0, inl h.1), IsReadable-SameView codec t v v' h.0 i)
  deleted-Kept message id (ok (err e)) v v' h i = absurd h
  deleted-Kept message id (ok (ok n)) v v' h i = Removed-Kept id n (n == 0) v v' refl h i

  pub deleted_check-Kept :
      (id : Text) (r : Result (Result ℕ)) (v v' : View)
      → Ran r (delete_id t id) v v'
      → IsReadable codec t v
      → Kept (Operation.delete id) (written (deleted_check r)) v v'
  unfolding deleted_check is_not_found
  deleted_check-Kept id (err e) v v' h i =
      ((documents-Same codec t v v' h.0, inl h.1), IsReadable-SameView codec t v v' h.0 i)
  deleted_check-Kept id (ok (err e)) v v' h i = absurd h
  deleted_check-Kept id (ok (ok n)) v v' h i =
      deleted-Kept (bytes "deleting check") id (ok (ok n)) v v' h i

  -- A change of another table behind an operation.
  others-Kept :
      (op : Operation A) (o : Outcome A) (v v' v'' : View)
      → ((k : Text) → v'' t k ≡ v' t k)
      → Kept op o v v'
      → Kept op o v v''
  others-Kept op o v v' v'' h k = (
    Allowed-Same id_of (documents codec t v) op o (documents codec t v') (documents codec t v'')
        (λ j. ap (decoded codec) (h j)) k.0,
    λ j. rw (h j) (k.1 j),
  )

  -- The second delete of `DeleteMonitor` keeps the other tables, whatever comes of it.
  events_entry :
      (id : Text) (r : Result (Result ℕ)) (v v' : View)
      → text_eq (bytes "monitor_events") t ≡ false
      → Ran r (events_of id) v v'
      → (k : Text) → v' t k ≡ v t k
  unfolding events_of Effect bytes text_eq
  events_entry id (err e) v v' d h k = h.0 t k
  events_entry id (ok (err e)) v v' d h k = absurd h
  events_entry id (ok (ok n)) v v' d h k = elim (h t k) [
    | inl e ↦ absurd (true≢false (sym e ∙ d))
    | inr e ↦ e
  ]

  pub delete_events-Kept :
      (op : Operation A) (id : Text) (x : Result (Unit {0})) (v : View) (w : W)
      → text_eq (bytes "monitor_events") t ≡ false
      → Kept op (written x) v (view w)
      → let (y, w') = delete_events db id x w in Kept op (written y) v (view w')
  unfolding delete_events events_of
  delete_events-Kept op id (err e) v w d k = k
  delete_events-Kept op id (ok tt) v w d k =
      let (r, w') = db.exec (events_of id) w in
      others-Kept op (written (ok tt)) v (view w) (view w')
        (events_entry id r (view w) (view w') d (sql.exec_runs (events_of id) w)) k
