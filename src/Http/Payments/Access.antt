-- ===== src/Http/Payments/Access.antt =====
-- Who is answered (internal/interfaces/http/server.go).
use kafka_lab.Base.{Bool-cases, arith, inl, inr, refl, ℕ, ◌≡◌, ◌≢◌, ◌⊎◌}
use kafka_lab.Base.Text.{Text, text_eq, text_eq_iff}
use kafka_lab.Base.Errors.{Result, err, ok}
use kafka_lab.Outboxwire.{Json}
use kafka_lab.Payment.Identity.{Uuids}
use kafka_lab.Database.{Database}
use kafka_lab.UseCases.Authorize.{AuthorizeResult}
use kafka_lab.UseCases.ReadTotals.{execute_read}
use kafka_lab.UseCases.Change.{execute_capture, execute_refund}
use kafka_lab.Http.Refusals.{status_unauthorized}
use kafka_lab.Http.Server.{Body, Request, Server, authenticated, refuse, respond}
use kafka_lab.Http.Payments.{
  DecodeJson, Route, Surroundings, answer_with, authorize_payment, authorize_read, authorize_route,
  capture_route, change_command, change_payment, handle, merchant_total, read_authorize_command,
  refund_route, said_authorized, said_changed, said_totals, serve, total_route,
}
use kafka_lab.Http.Payments.Answers.{Refuses, not_unauthorized}

answered_otherwise :
    {A : Type 0} (trace_id : Text) (said : A → ℕ × Body) (result : Result A × Database)
    → ((a : A) → (said a).0 ≢ status_unauthorized)
    → (answer_with trace_id said result).0.0.status ≢ status_unauthorized
unfolding answer_with refuse respond
answered_otherwise trace_id said (ok a, db) h = h a
answered_otherwise trace_id said (err e, db) h = not_unauthorized e

said_authorized_otherwise : (a : AuthorizeResult) → (said_authorized a).0 ≢ status_unauthorized
unfolding said_authorized
said_authorized_otherwise a = elim (Bool-cases a.stored) [
  | inl e ↦ rw e (λ q. ground arith)
  | inr e ↦ rw e (λ q. ground arith)
]

module _ (u : Uuids) (json : Json) (decode : DecodeJson) where
  handled_otherwise :
      (route : Route) (w : Surroundings) (r : Request) (db : Database)
      → (handle u json decode route w r db).0.0.status ≢ status_unauthorized
  unfolding handle authorize_payment change_payment merchant_total said_changed said_totals
  handled_otherwise authorize_route w r db =
      answered_otherwise r.trace_id said_authorized
        (authorize_read u json decode w (read_authorize_command decode r) db)
        said_authorized_otherwise
  handled_otherwise capture_route w r db =
      answered_otherwise r.trace_id said_changed
        (execute_capture u json w.session (change_command r) w.now db) (λ a q. ground arith)
  handled_otherwise refund_route w r db =
      answered_otherwise r.trace_id said_changed
        (execute_refund u json w.session (change_command r) w.now db) (λ a q. ground arith)
  handled_otherwise total_route w r db =
      answered_otherwise r.trace_id (said_totals r.merchant_id)
        (execute_read w.totals_fault r.merchant_id db) (λ a q. ground arith)

  -- Every route but the probes is answered with 401 exactly if the request's API key is not the
  -- server's; then the tables are as they were.
  pub serve_unauthorized :
      (s : Server) (route : Route) (w : Surroundings) (r : Request) (db : Database)
      → ((r.api_key ≡ s.api_key)
          × ((serve u json decode s route w r db).0.0.status ≢ status_unauthorized))
        ⊎ ((r.api_key ≢ s.api_key)
            × Refuses status_unauthorized db (serve u json decode s route w r db))
  unfolding serve authenticated respond
  serve_unauthorized s route w r db = elim (Bool-cases (text_eq r.api_key s.api_key)) [
    | inl e ↦ rw e (inl ((text_eq_iff r.api_key s.api_key).0 e, handled_otherwise route w r db))
    | inr e ↦
        rw e (inr (λ same. ground (arith, (text_eq_iff r.api_key s.api_key).1 same), (refl, refl)))
  ]
