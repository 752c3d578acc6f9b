-- ===== src/Api/MonitorRoutes/Kept.antt =====
-- What the storage has taken when a monitor is created or updated.
use mathlib.Core.Path.{subst}
use dnsmon.Base.{ℕ, ◌≡◌, refl, sym, Option, none, some, Text, Bool-cases, inl, inr}
use dnsmon.Settings.{Monitor}
use dnsmon.Settings.Ids.{new_id}
use dnsmon.World.{Result, ok, err, Storage, Machine, Error, is_not_found}
use dnsmon.Api.{Refusal, value, stored, missing_or, refusal≢value, value-injective}
use dnsmon.Api.MonitorRoutes.{
  MonitorRequest, refused, created_monitor, updated_monitor, announce, create_checked,
  create_monitor, update_found, update_checked, update_monitor,
}
use dnsmon.Api.MonitorRoutes.Accepted.{
  IsSound, refused-IsAcceptable, created_monitor-IsSound, updated_monitor-IsSound,
}

module _ {W : Type 0} (store : Storage W) (machine : Machine W)
    (complaint : MonitorRequest → Text) where
  -- The storage took a sound monitor.
  abbrev pub IsKept : Monitor → Type 0
  IsKept m = IsSound m × ((v : W) × ((store.save_monitor m v).0 ≡ ok tt))

  -- It is the update of a monitor that the storage had under the id.
  abbrev pub IsUpdate : Text → Monitor → Type 0
  IsUpdate id n =
      (old : Monitor) × (v : W) × ((store.get_monitor id v).0 ≡ ok old)
      × (n.id ≡ old.id)
      × (n.created_at ≡ old.created_at)

  announce-IsKept :
      (m n : Monitor) (now st : ℕ) (v w : W) (done : Result (Unit {0}))
      → IsSound m
      → (store.save_monitor m v).0 ≡ done
      → (announce store machine complaint m now done w).0 ≡ value st n
      → (st ≡ 201) × IsKept n
  unfolding announce stored
  announce-IsKept m n now st v w (err x) s d e = absurd (refusal≢value _ _ _ st n e)
  announce-IsKept m n now st v w (ok u) s d e =
      let (status, same) = value-injective 201 st m n e in
      (sym status, subst IsKept same (s, (v, d)))

  create_checked-IsKept :
      (req : MonitorRequest) (x : Option Refusal) (st : ℕ) (n : Monitor) (w : W)
      → refused complaint req ≡ x
      → (create_checked store machine complaint req x w).0 ≡ value st n
      → (st ≡ 201) × IsKept n
  unfolding create_checked
  create_checked-IsKept req (some (s, code, message)) st n w r e =
      absurd (refusal≢value s code message st n e)
  create_checked-IsKept req none st n w r e =
      let (now, w₁) = machine.now w in
      let (id, w₂) = new_id machine w₁ in
      let m = created_monitor req id now in
      announce-IsKept m n now st w₂ (store.save_monitor m w₂).1 (store.save_monitor m w₂).0
        (created_monitor-IsSound req id now (refused-IsAcceptable complaint req r)) refl e

  -- `CreateMonitor` replies with a monitor only with the status 201, and the storage has taken that
  -- monitor, which is sound: it is of one of the two types, has a name, a domain name and a record
  -- type that is supported, no empty expected value, and some expected value if it watches a
  -- propagation.
  pub create_monitor-IsKept :
      (body : Option MonitorRequest) (st : ℕ) (n : Monitor) (w : W)
      → (create_monitor store machine complaint body w).0 ≡ value st n
      → (st ≡ 201) × IsKept n
  unfolding create_monitor
  create_monitor-IsKept none st n w e = absurd (refusal≢value _ _ _ st n e)
  create_monitor-IsKept (some req) st n w e =
      create_checked-IsKept req (refused complaint req) st n w refl e

  missing_or≢value :
      (a b : Text) (x : Error) (st : ℕ) (n : Monitor) → ¬ (missing_or a b x ≡ value st n)
  unfolding missing_or
  missing_or≢value a b x st n e = elim (Bool-cases (is_not_found x)) [
    | inl h ↦ refusal≢value _ _ _ st n (rw h at e)
    | inr h ↦ refusal≢value _ _ _ st n (rw h at e)
  ]

  stored-value :
      (m n : Monitor) (message : Text) (st : ℕ) (done : Result (Unit {0}))
      → stored 200 message m done ≡ value st n
      → (st ≡ 200) × (m ≡ n) × (done ≡ ok tt)
  unfolding stored
  stored-value m n message st (err x) e = absurd (refusal≢value _ _ _ st n e)
  stored-value m n message st (ok u) e =
      let (status, same) = value-injective 200 st m n e in (sym status, same, refl)

  update_found-IsKept :
      (id : Text) (req : MonitorRequest) (x : Result Monitor) (st : ℕ) (n : Monitor) (v w : W)
      → refused complaint req ≡ none
      → (store.get_monitor id v).0 ≡ x
      → (update_found store machine complaint req x w).0 ≡ value st n
      → (st ≡ 200) × IsKept n × IsUpdate id n
  unfolding update_found updated_monitor
  update_found-IsKept id req (err x) st n v w r g e = absurd (missing_or≢value _ _ x st n e)
  update_found-IsKept id req (ok old) st n v w r g e =
      let (now, w₁) = machine.now w in
      let m = updated_monitor req old now in
      let sound = updated_monitor-IsSound req old now (refused-IsAcceptable complaint req r) in
      let (status, same, taken) = stored-value m n _ st (store.save_monitor m w₁).0 e in
      (
        status,
        subst IsKept same (sound, (w₁, taken)),
        subst (IsUpdate id) same (old, v, g, refl, refl),
      )

  update_checked-IsKept :
      (id : Text) (req : MonitorRequest) (x : Option Refusal) (st : ℕ) (n : Monitor) (w : W)
      → refused complaint req ≡ x
      → (update_checked store machine complaint id req x w).0 ≡ value st n
      → (st ≡ 200) × IsKept n × IsUpdate id n
  unfolding update_checked
  update_checked-IsKept id req (some (s, code, message)) st n w r e =
      absurd (refusal≢value s code message st n e)
  update_checked-IsKept id req none st n w r e =
      update_found-IsKept id req (store.get_monitor id w).0 st n w (store.get_monitor id w).1 r refl
        e

  -- `UpdateMonitor` replies with a monitor only with the status 200, and the storage has taken that
  -- monitor, which is sound; it has the id and the time of creation of a monitor that the storage had
  -- under the id of the request.
  pub update_monitor-IsKept :
      (id : Text) (body : Option MonitorRequest) (st : ℕ) (n : Monitor) (w : W)
      → (update_monitor store machine complaint id body w).0 ≡ value st n
      → (st ≡ 200) × IsKept n × IsUpdate id n
  unfolding update_monitor
  update_monitor-IsKept id none st n w e = absurd (refusal≢value _ _ _ st n e)
  update_monitor-IsKept id (some req) st n w e =
      update_checked-IsKept id req (refused complaint req) st n w refl e
