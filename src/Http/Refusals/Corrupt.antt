-- ===== src/Http/Refusals/Corrupt.antt =====
-- What a caller is told of a stored payment that cannot be read back (rebuilt of
-- internal/infrastructure/postgres/payments.go, told by internal/interfaces/http/errors.go).
use kafka_lab.Base.{
  Bool, List, Option, [], all, ap, arith, false, find, if◌then◌else◌, none, not, refl, some, true,
  ℕ, ◌&&◌, ◌==◌, ◌∙◌, ◌∷◌, ◌≡◌,
}
use kafka_lab.Base.Text.{Text, codes, text_eq}
use kafka_lab.Base.Errors.{
  Error, Result, corrupt, err, id_format, is, is_ok, ok, status_unknown, tag, wrap, ◌>>=◌,
}
use kafka_lab.Outboxwire.{Json}
use kafka_lab.Payment.Money.{parse_money}
use kafka_lab.Payment.Identity.{MerchantId, PaymentId, Uuids, parse_id}
use kafka_lab.Payment.Aggregate.{Status}
use kafka_lab.Database.{PaymentRow}
use kafka_lab.Database.Payments.{parse_stored_status, rebuilt, to_domain}
use kafka_lab.Http.Refusals.{
  Refusal, refusal_for, refusals, status_bad_request, status_internal_server_error, told_as,
}
use kafka_lab.Http.Refusals.Statuses.{
  TellsAs, and_left, and_right, err-TellsAs, if-TellsAs, ok-TellsAs, parse_money-TellsAs,
}

-- No row of the table is about stored payments that are corrupt.
not-true : (b : Bool) → not b ≡ true → b ≡ false
not-true b h = ground arith

find-corrupt :
    (e : Error) (rows : List Refusal)
    → all (λ (r : Refusal). not (tag corrupt == tag r.sentinel)) rows ≡ true
    → find (λ (r : Refusal). is (corrupt ∷ e) r.sentinel) rows
      ≡ find (λ (r : Refusal). is e r.sentinel) rows
unfolding is
find-corrupt e [] h = refl
find-corrupt e (row ∷ rows) h = rw (not-true (tag corrupt == tag row.sentinel) (and_left _ _ h)) (
    ap (λ found. if is e row.sentinel then some row else found)
      (find-corrupt e rows (and_right _ _ h)))

refusal_for-corrupt : (e : Error) → refusal_for (corrupt ∷ e) ≡ refusal_for e
unfolding refusal_for refusals tag
refusal_for-corrupt e = ap told_as (find-corrupt e refusals refl)

corrupt_told :
    {A B : Type 0} (status : ℕ) (x e : Error)
    → TellsAs {A = A} status (err x)
    → Path (Result B) (err (corrupt ∷ x)) (err e)
    → (refusal_for e).0 ≡ status
corrupt_told status x e h q =
    (err-TellsAs status (corrupt ∷ x) (ap (λ t. t.0) (refusal_for-corrupt x) ∙ h.told x refl)).told
      e q

-- The parts of a row that are read one after the other: its id, its amount, its status.
parts_told :
    {A B C D : Type 0} (id : Result A) (amount : Result B) (status : Result C) (f : A → B → C → D)
    (e : Error)
    → wrap (corrupt ∷ []) (id >>= λ i. amount >>= λ m. status >>= λ s. ok (f i m s)) ≡ err e
    → TellsAs status_internal_server_error id
    → TellsAs status_bad_request amount
    → TellsAs status_internal_server_error status
    → (refusal_for e).0 ≡ (
        if is_ok id && not (is_ok amount) then status_bad_request else status_internal_server_error)
parts_told (err x) amount status f e h i m s = corrupt_told status_internal_server_error x e i h
parts_told (ok a) (err x) status f e h i m s = corrupt_told status_bad_request x e m h
parts_told (ok a) (ok b) (err x) f e h i m s = corrupt_told status_internal_server_error x e s h
parts_told (ok a) (ok b) (ok c) f e h i m s = ground arith

parsed-TellsAs :
    (parsed : Option ℕ) (r : Result PaymentId)
    → r ≡ elim parsed [ none ↦ err (id_format ∷ []) | some n ↦ ok (record { value = n }) ]
    → TellsAs status_internal_server_error r
unfolding refusal_for refusals told_as is tag
parsed-TellsAs none r h = rw h (err-TellsAs status_internal_server_error (id_format ∷ []) refl)
parsed-TellsAs (some n) r h = rw h (ok-TellsAs status_internal_server_error _)

parse_id-TellsAs : (u : Uuids) (t : Text) → TellsAs status_internal_server_error (parse_id u t)
unfolding parse_id
parse_id-TellsAs u t = parsed-TellsAs (u.parse t) (parse_id u t) refl

parse_stored_status-TellsAs :
    (t : Text) → TellsAs status_internal_server_error (parse_stored_status t)
unfolding parse_stored_status refusal_for refusals told_as is tag
parse_stored_status-TellsAs t =
    if-TellsAs status_internal_server_error (text_eq (codes "authorized") t) _ _
      (ok-TellsAs status_internal_server_error Status.authorized)
      (if-TellsAs status_internal_server_error (text_eq (codes "captured") t) _ _
        (ok-TellsAs status_internal_server_error Status.captured)
        (if-TellsAs status_internal_server_error (text_eq (codes "refunded") t) _ _
          (ok-TellsAs status_internal_server_error Status.refunded)
          (err-TellsAs status_internal_server_error (status_unknown ∷ []) refl)))

-- A stored payment that cannot be read back is told as a 500 where its id or its status cannot be
-- read, and as a 400 where its id can and its amount or currency cannot: the caller of a capture or
-- a refund, who sent neither, is told to correct them.
pub rebuilt-told :
    (u : Uuids) (json : Json) (row : PaymentRow) (merchant : MerchantId) (e : Error)
    → rebuilt u json row merchant ≡ err e
    → (refusal_for e).0 ≡ (
        if is_ok (parse_id u row.id) && not (is_ok (parse_money row.amount_minor row.currency))
        then status_bad_request
        else status_internal_server_error)
unfolding rebuilt to_domain
rebuilt-told u json row merchant e h =
    parts_told (parse_id u row.id) (parse_money row.amount_minor row.currency)
      (parse_stored_status row.status) _ e h (parse_id-TellsAs u row.id)
      (parse_money-TellsAs row.amount_minor row.currency) (parse_stored_status-TellsAs row.status)
