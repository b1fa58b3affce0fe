-- ===== src/Payment/Lifecycle.antt =====
-- What holds of a payment over its life (internal/domain/payment/payment.go).
use mathlib.Core.List.{append_assoc, append-nil}
use kafka_lab.Base.{
  Bool, List, Option, [], arith, false, none, refl, some, true, ◌++◌, ◌∙◌, ◌∷◌, ◌≡◌, ◌≢◌,
}
use kafka_lab.Base.Time.{Time, to_utc}
use kafka_lab.Base.Errors.{Error, invalid_transition, ok}
use kafka_lab.Payment.Money.{Money}
use kafka_lab.Payment.Identity.{MerchantId, PaymentId}
use kafka_lab.Payment.Events.{Event}
use kafka_lab.Payment.Aggregate.{Payment, Status, authorize, capture, movement, pull_events, refund}

-- What a caller may do to a payment that exists.
pub data Command : Type 0 where
  capture_at : Time → Command
  refund_at : Time → Command
  pull : Command

-- A payment beside the events that were handed over so far.
abbrev pub Life : Type 0
Life = List Event × Payment

unfoldable pub obey : Command → Life → Life
unfolding capture refund pull_events
obey (capture_at at) (out, p) = (out, (capture p at).0)
obey (refund_at at) (out, p) = (out, (refund p at).0)
obey pull (out, p) = let (pending, p') = pull_events p in (out ++ pending, p')

unfoldable pub live : List Command → Life → Life
live [] l = l
live (c ∷ cs) l = live cs (obey c l)

-- What a payment has announced, read off its status and history alone: every status that it
-- went through, once, in order, at the time that the history gives.
abbrev pub announced : Status → Payment → List Event
announced Status.unknown p = []
announced Status.authorized p = Event.authorized (movement p p.history.authorized_at) ∷ []
announced Status.captured p =
    Event.authorized (movement p p.history.authorized_at)
    ∷ Event.captured (movement p p.history.captured_at)
    ∷ []
announced Status.refunded p =
    Event.authorized (movement p p.history.authorized_at)
    ∷ Event.captured (movement p p.history.captured_at)
    ∷ Event.refunded (movement p p.history.refunded_at)
    ∷ []

abbrev pub IsAnnounced : Life → Type 0
IsAnnounced (out, p) = (out ++ p.events ≡ announced p.status p) × (p.status ≢ Status.unknown)

grow :
    (out pending all_events : List Event) (e : Event)
    → out ++ pending ≡ all_events
    → out ++ (pending ++ (e ∷ [])) ≡ all_events ++ (e ∷ [])
grow out pending all_events e h = rw (← append_assoc) (rw h)

announced-pull : (s : Status) (p : Payment) → announced s p ≡ announced s (record p { events = [] })
announced-pull Status.unknown p = refl
announced-pull Status.authorized p = refl
announced-pull Status.captured p = refl
announced-pull Status.refunded p = refl

obey-IsAnnounced : (c : Command) (l : Life) → IsAnnounced l → IsAnnounced (obey c l)
unfolding obey
obey-IsAnnounced (capture_at at) (out, p) h =
    ground (
      arith,
      grow out p.events (announced p.status p) (Event.captured (movement p (to_utc at))) h.0,
    )
obey-IsAnnounced (refund_at at) (out, p) h =
    ground (
      arith,
      grow out p.events (announced p.status p) (Event.refunded (movement p (to_utc at))) h.0,
    )
obey-IsAnnounced pull (out, p) h = (append-nil _ ∙ h.0 ∙ announced-pull p.status p, h.1)

live-IsAnnounced : (cs : List Command) (l : Life) → IsAnnounced l → IsAnnounced (live cs l)
unfolding live
live-IsAnnounced [] l h = h
live-IsAnnounced (c ∷ cs) l h = live-IsAnnounced cs (obey c l) (obey-IsAnnounced c l h)

authorize-IsAnnounced :
    (id : PaymentId) (m : MerchantId) (a : Money) (at : Time) (p : Payment)
    → authorize id m a at ≡ ok p
    → IsAnnounced ([], p)
unfolding authorize
authorize-IsAnnounced id m a at p h = ground arith

-- Whatever sequence of captures, refunds and event pulls follows an authorisation, the events
-- handed over and the events still pending are together exactly those of the statuses that the
-- payment went through: authorised, then captured, then refunded, each once, in that order,
-- with the payment's own data and the times of its history.
pub live-announced :
    (id : PaymentId) (m : MerchantId) (a : Money) (at : Time) (p : Payment) (cs : List Command)
    → authorize id m a at ≡ ok p
    → let (out, q) = live cs ([], p) in out ++ q.events ≡ announced q.status q
live-announced id m a at p cs h =
    (live-IsAnnounced cs ([], p) (authorize-IsAnnounced id m a at p h)).0

-- The transitions of a payment: which statuses a capture or a refund may lead to.
abbrev pub allows : Status → Status → Bool
allows Status.authorized Status.captured = true
allows Status.captured Status.captured = true
allows Status.captured Status.refunded = true
allows Status.refunded Status.refunded = true
allows _ _ = false

-- What a move of `p` to the status `to` came to.
abbrev pub Moved : Payment → Status → Payment × Option Error → Type 0
Moved p to (q, none) =
    (allows p.status to ≡ true)
    × (q.status ≡ to)
    × (q.id ≡ p.id)
    × (q.merchant ≡ p.merchant)
    × (q.amount ≡ p.amount)
    × (q.history.authorized_at ≡ p.history.authorized_at)
Moved p to (q, some e) = (allows p.status to ≡ false) × (q ≡ p) × (e ≡ invalid_transition ∷ [])

-- A capture and a refund are accepted exactly where the table of transitions allows them; then the
-- payment has the new status and keeps its id, merchant, amount and authorisation time. A refused
-- one leaves the payment as it was, with the error for an invalid transition.
pub move-Moved :
    (p : Payment) (at : Time)
    → Moved p Status.captured (capture p at) × Moved p Status.refunded (refund p at)
unfolding capture refund
move-Moved p at = ground arith

-- Capturing or refunding a second time, at any later moment, changes nothing more: not the
-- status, the history or the pending events, and it ends with the error of the first call.
pub repeat_changes_nothing :
    (p : Payment) (at later : Time)
    → (capture (capture p at).0 later ≡ capture p at) × (refund (refund p at).0 later ≡ refund p at)
unfolding capture refund
repeat_changes_nothing p at later = ground arith
