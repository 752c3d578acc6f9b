-- ===== src/Storage/Documents.antt =====
-- internal/storage/storage.go: what a store promises for the documents of one kind, the checks or the
-- monitors: a partial map from ids to documents, which an operation that fails leaves as it was.
use dnsmon.Base.{
  ◌≡◌, ◌≢◌, refl, ◌∙◌, ◌⊎◌, List, [], ◌∷◌, Option, none, some, false, Text, text_eq, if◌then◌else◌,
}
use dnsmon.World.{Result, ok, err, is_not_found, Action, ◌>>=◌, pure}

-- The operations of a store on the documents of one kind.
pub record DocumentStore (W A : Type 0) : Type 0 where
  pub save : A → Action W (Result (Unit {0}))
  pub get : Text → Action W (Result A)
  pub delete : Text → Action W (Result (Unit {0}))

pub data Operation (A : Type 0) : Type 0 where
  save : A → Operation A
  get delete : Text → Operation A

pub data Outcome (A : Type 0) : Type 0 where
  written : Result (Unit {0}) → Outcome A
  got : Result A → Outcome A

module _ {W A : Type 0} (store : DocumentStore W A) where
  abbrev pub perform : Operation A → Action W (Outcome A)
  perform (save a) = do r ← store.save a; pure (written r)
  perform (get id) = do r ← store.get id; pure (got r)
  perform (delete id) = do r ← store.delete id; pure (written r)

  abbrev pub perform_all : List (Operation A) → Action W (List (Outcome A))
  perform_all [] = pure []
  perform_all (op ∷ ops) = do o ← perform op; os ← perform_all ops; pure (o ∷ os)

module _ {A : Type 0} where
  abbrev pub Same : (Text → Option A) → (Text → Option A) → Type 0
  Same m m' = (k : Text) → m' k ≡ m k

  abbrev pub put : Text → A → (Text → Option A) → Text → Option A
  put id a m k = if text_eq id k then some a else m k

  abbrev pub drop : Text → (Text → Option A) → Text → Option A
  drop id m k = if text_eq id k then none else m k

  -- The outcomes that the map `m` allows for an operation, with the map behind it. An error that is
  -- not `ErrNotFound` is a failure of the database or of the encoding.
  abbrev pub Allowed :
      (A → Text) → (Text → Option A) → Operation A → Outcome A → (Text → Option A) → Type 0
  Allowed id_of m (save a) (written (ok u)) m' = Same (put (id_of a) a m) m'
  Allowed id_of m (save a) (written (err e)) m' = Same m m' × (is_not_found e ≡ false)
  Allowed id_of m (save a) (got r) m' = ⊥
  Allowed id_of m (get id) (got (ok a)) m' = Same m m' × (m id ≡ some a)
  Allowed id_of m (get id) (got (err e)) m' = Same m m' × ((is_not_found e ≡ false) ⊎ (m id ≡ none))
  Allowed id_of m (get id) (written r) m' = ⊥
  Allowed id_of m (delete id) (written (ok u)) m' = Same (drop id m) m' × (m id ≢ none)
  Allowed id_of m (delete id) (written (err e)) m' =
      Same m m' × ((is_not_found e ≡ false) ⊎ (m id ≡ none))
  Allowed id_of m (delete id) (got r) m' = ⊥

  -- What is allowed depends on the values of the map alone.
  pub Allowed-Same :
      (id_of : A → Text) (m : Text → Option A) (op : Operation A) (o : Outcome A)
      (m' m'' : Text → Option A)
      → Same m' m''
      → Allowed id_of m op o m'
      → Allowed id_of m op o m''
  Allowed-Same id_of m (save a) (written (ok u)) m' m'' h i = λ k. h k ∙ i k
  Allowed-Same id_of m (save a) (written (err e)) m' m'' h i = (λ k. h k ∙ i.0 k, i.1)
  Allowed-Same id_of m (save a) (got r) m' m'' h i = i
  Allowed-Same id_of m (get id) (got (ok a)) m' m'' h i = (λ k. h k ∙ i.0 k, i.1)
  Allowed-Same id_of m (get id) (got (err e)) m' m'' h i = (λ k. h k ∙ i.0 k, i.1)
  Allowed-Same id_of m (get id) (written r) m' m'' h i = i
  Allowed-Same id_of m (delete id) (written (ok u)) m' m'' h i = (λ k. h k ∙ i.0 k, i.1)
  Allowed-Same id_of m (delete id) (written (err e)) m' m'' h i = (λ k. h k ∙ i.0 k, i.1)
  Allowed-Same id_of m (delete id) (got r) m' m'' h i = i

  -- The outcomes of a sequence of operations, one after the other.
  abbrev pub Replays :
      (A → Text)
      → (Text → Option A)
      → List (Operation A)
      → List (Outcome A)
      → (Text → Option A)
      → Type 0
  Replays id_of m [] [] m' = Same m m'
  Replays id_of m [] (o ∷ os) m' = ⊥
  Replays id_of m (op ∷ ops) [] m' = ⊥
  Replays id_of m (op ∷ ops) (o ∷ os) m' =
      (between : Text → Option A) × Allowed id_of m op o between × Replays id_of between ops os m'

module _ {W A : Type 0} (store : DocumentStore W A) (id_of : A → Text) (docs : W → Text → Option A)
    (Valid : W → Type 0)
    (allowed : (op : Operation A) (w : W)
      → Valid w
      → let (o, w') = perform store op w in Allowed id_of (docs w) op o (docs w') × Valid w') where
  -- A store that keeps to the map in each operation keeps to it in each sequence of them.
  pub perform_all-Replays :
      (ops : List (Operation A)) (w : W)
      → Valid w
      → let (os, w') = perform_all store ops w in Replays id_of (docs w) ops os (docs w') × Valid w'
  perform_all-Replays [] w v = (λ k. refl, v)
  perform_all-Replays (op ∷ ops) w v =
      let (o, w₁) = perform store op w in
      let (a, v₁) = allowed op w v in
      let (r, v₂) = perform_all-Replays ops w₁ v₁ in ((docs w₁, a, r), v₂)
