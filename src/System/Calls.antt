-- ===== src/System/Calls.antt =====
-- The use cases of payments keep the tables sound.
use kafka_lab.Base.{
  Bool, List, Option, [], false, if◌then◌else◌, none, not, some, true, ℕ, ◌+◌, ◌∷◌,
}
use kafka_lab.Base.Text.{Text, is_empty}
use kafka_lab.Base.Time.{Time}
use kafka_lab.Base.Errors.{Error, Result, corrupt, err, ok, wrap}
use kafka_lab.Outboxwire.{Json}
use kafka_lab.Payment.Identity.{MerchantId, PaymentId, Uuids}
use kafka_lab.Payment.Events.{Event}
use kafka_lab.Payment.Aggregate.{Payment, Status, pull_events}
use kafka_lab.Database.{
  Action, Context, Database, insert_outbox, insert_payment, lift, raise, select_payment_by_key,
  select_payment_for_update, update_payment_status,
}
use kafka_lab.Database.Transaction.{Session, inside_of, payment_terms}
use kafka_lab.Database.Outbox.{append_events, append_pulled, encode_event, insert_row}
use kafka_lab.Database.Payments.{
  create_or_get, find_for_update, insert_row_of, save, stored_status, stored_under, update_status,
}
use kafka_lab.Database.Preserves.{
  Preserves, bind-Preserves, exec-Preserves, if-Preserves, within_tx-Preserves,
}
use kafka_lab.UseCases.Authorize.{
  AuthorizeCommand, authorize_command, execute_authorize, store_authorized, store_once,
}
use kafka_lab.UseCases.Change.{
  ChangeCommand, Move, apply_change, apply_parsed, change_in, parse_change, save_moved,
}
use kafka_lab.Kafka.Detours.{Produced}
use kafka_lab.UseCases.Relay.{Wiring}
use kafka_lab.System.Statements.{
  Sound, insert_row-Preserves, insert_row_of-Preserves, update_status-Preserves,
}

module _ (r : Wiring) (log : List Produced) (u : Uuids) (json : Json) where
  abbrev Keeps : {A : Type 0} → Action A → Type 0
  Keeps = Preserves (Sound r log)

  append_pulled-Preserves :
      (ctx : Context) (i : ℕ) (events : List Event) → Keeps (append_pulled u json ctx i events)
  unfolding append_pulled
  append_pulled-Preserves ctx i [] db h = h
  append_pulled-Preserves ctx i (event ∷ events) db h =
      bind-Preserves (Sound r log) (lift (wrap (corrupt ∷ []) (encode_event u json event))) _
        (λ db h. h)
        (λ row.
          bind-Preserves (Sound r log) _ _
            (exec-Preserves (Sound r log) (ctx.fault (insert_outbox i)) _ (insert_row ctx.trace row)
              (insert_row-Preserves r log ctx.trace row))
            (λ _. append_pulled-Preserves ctx (i + 1) events))
        db h

  append_events-Preserves : (ctx : Context) (p : Payment) → Keeps (append_events u json ctx p)
  unfolding append_events
  append_events-Preserves ctx p =
      bind-Preserves (Sound r log) (append_pulled u json ctx 0 (pull_events p).0) _
        (append_pulled-Preserves ctx 0 (pull_events p).0) (λ _ db h. h)

  stored_under-Preserves :
      (ctx : Context) (merchant : MerchantId) (key : Text)
      → Keeps (stored_under u json ctx merchant key)
  unfolding stored_under
  stored_under-Preserves ctx merchant key db h =
      exec-Preserves (Sound r log) (ctx.fault select_payment_by_key) _ (lift _) (λ d k. k) db h

  create_or_get-Preserves :
      (ctx : Context) (p : Payment) (key : Text) → Keeps (create_or_get u json ctx p key)
  unfolding create_or_get
  create_or_get-Preserves ctx p key =
      if-Preserves (Sound r log) (not ctx.inside) _ _ (λ db h. h)
        (bind-Preserves (Sound r log) (lift (wrap (corrupt ∷ []) (stored_status p.status))) _
          (λ db h. h)
          (λ status.
            bind-Preserves (Sound r log) _ _
              (exec-Preserves (Sound r log) (ctx.fault insert_payment) _
                (insert_row_of u json p status key)
                (insert_row_of-Preserves r log u json p status key))
              (λ inserted.
                if-Preserves (Sound r log) inserted _ _
                  (bind-Preserves (Sound r log) (append_events u json ctx p) _
                    (append_events-Preserves ctx p) (λ _ db h. h))
                  (bind-Preserves (Sound r log) (stored_under u json ctx p.merchant key) _
                    (stored_under-Preserves ctx p.merchant key) (λ _ db h. h)))))

  authorized-Preserves :
      (s : Session) (cmd : AuthorizeCommand) (parsed : Result Payment)
      → Keeps (store_authorized u json s cmd parsed)
  unfolding store_authorized store_once
  authorized-Preserves s cmd (err e) db h = h
  authorized-Preserves s cmd (ok p) db h =
      within_tx-Preserves (Sound r log) payment_terms s (store_once u json p cmd.idempotency_key)
        (bind-Preserves (Sound r log) (create_or_get u json (inside_of s) p cmd.idempotency_key) _
          (create_or_get-Preserves (inside_of s) p cmd.idempotency_key) (λ _ d k. k))
        db h

  pub execute_authorize-Preserves :
      (s : Session) (cmd : AuthorizeCommand) (at : Time) (id : PaymentId)
      → Keeps (execute_authorize u json s cmd at id)
  unfolding execute_authorize
  execute_authorize-Preserves s cmd at id =
      if-Preserves (Sound r log) (is_empty cmd.idempotency_key) _ _ (λ db h. h)
        (authorized-Preserves s cmd (authorize_command cmd at id))

  gate-Sound :
      {A : Type 0} (inside : Bool) (e : Error) (db : Database) (found : Result A × Database)
      → Sound r log db
      → Sound r log found.1
      → Sound r log (if not inside then raise e db else found).1
  gate-Sound true e db found h k = k
  gate-Sound false e db found h k = h

  find_for_update-Preserves :
      (ctx : Context) (id : PaymentId) (merchant : MerchantId)
      → Keeps (find_for_update u json ctx id merchant)
  unfolding find_for_update
  find_for_update-Preserves ctx id merchant db h = gate-Sound ctx.inside _ db _ h (
      exec-Preserves (Sound r log) (ctx.fault select_payment_for_update) _ (lift _) (λ d k. k) db h)

  save-Preserves : (ctx : Context) (p : Payment) (from : Status) → Keeps (save u json ctx p from)
  unfolding save
  save-Preserves ctx p from =
      if-Preserves (Sound r log) (not ctx.inside) _ _ (λ db h. h)
        (bind-Preserves (Sound r log) (lift (wrap (corrupt ∷ []) (stored_status p.status))) _
          (λ db h. h)
          (λ status.
            bind-Preserves (Sound r log) (lift (wrap (corrupt ∷ []) (stored_status from))) _
              (λ db h. h)
              (λ previous.
                bind-Preserves (Sound r log) _ _
                  (exec-Preserves (Sound r log) (ctx.fault update_payment_status) _
                    (update_status u json p status previous)
                    (update_status-Preserves r log u json p status previous))
                  (λ _. append_events-Preserves ctx p))))

  save_moved-Preserves :
      (ctx : Context) (before : Payment) (moved : Payment × Option Error)
      → Keeps (save_moved u json ctx before moved)
  unfolding save_moved
  save_moved-Preserves ctx before (changed, some e) db h = h
  save_moved-Preserves ctx before (changed, none) db h =
      bind-Preserves (Sound r log) (save u json ctx changed before.status) _
        (save-Preserves ctx changed before.status) (λ _ d k. k) db h

  parsed-Preserves :
      (s : Session) (move : Move) (at : Time) (parsed : Result (PaymentId × MerchantId))
      → Keeps (apply_parsed u json s move at parsed)
  unfolding apply_parsed change_in
  parsed-Preserves s move at (err e) db h = h
  parsed-Preserves s move at (ok (id, merchant)) db h =
      within_tx-Preserves (Sound r log) payment_terms s (change_in u json move id merchant at)
        (bind-Preserves (Sound r log) (find_for_update u json (inside_of s) id merchant) _
          (find_for_update-Preserves (inside_of s) id merchant)
          (λ found. save_moved-Preserves (inside_of s) found (move found at)))
        db h

  pub apply_change-Preserves :
      (s : Session) (move : Move) (cmd : ChangeCommand) (at : Time)
      → Keeps (apply_change u json s move cmd at)
  unfolding apply_change
  apply_change-Preserves s move cmd at = parsed-Preserves s move at (parse_change u json cmd)
