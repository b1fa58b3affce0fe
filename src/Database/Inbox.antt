-- ===== src/Database/Inbox.antt =====
-- internal/infrastructure/postgres/inbox.go: the claim that makes an event count once.
use kafka_lab.Base.{Bool, List, [], any, false, if◌then◌else◌, not, true, ◌∷◌, ◌≡◌}
use kafka_lab.Base.Text.{Text, text_eq}
use kafka_lab.Base.Time.{Time, to_utc}
use kafka_lab.Base.Errors.{Error, join, merchant_storage, ok, outside_transaction, unprocessable}
use kafka_lab.Database.{Action, Context, Database, InboxRow, claim_event, exec, raise}
use kafka_lab.Database.Transaction.{refused_by_data}

abbrev pub is_claimed : Text → List InboxRow → Bool
is_claimed event_id rows = any (λ row. text_eq row.event_id event_id) rows

-- INSERT INTO inbox … ON CONFLICT (event_id) DO NOTHING, and whether a row was written.
unfoldable pub insert_inbox : Text → Time → Action Bool
insert_inbox event_id at db = if is_claimed event_id db.inbox then (ok false, db) else (
  ok true,
  record db { inbox = record { event_id = event_id; consumed_at = at } ∷ db.inbox },
)

abbrev claim_failure : Error → Error
claim_failure e =
    if refused_by_data e then join (unprocessable ∷ []) e else join (merchant_storage ∷ []) e

-- `InboxStore.Claim`
unfoldable pub claim : Context → Text → Time → Action Bool
unfolding insert_inbox refused_by_data
claim ctx event_id at =
    if not ctx.inside
    then raise (outside_transaction ∷ [])
    else exec (ctx.fault claim_event) claim_failure (insert_inbox event_id (to_utc at))

pub insert_inbox-new :
    (event_id : Text) (at : Time) (db : Database)
    → is_claimed event_id db.inbox ≡ false
    → insert_inbox event_id at db
      ≡ (ok true, record db { inbox = record { event_id = event_id; consumed_at = at } ∷ db.inbox })
unfolding insert_inbox
insert_inbox-new event_id at db h = rw h

pub insert_inbox-old :
    (event_id : Text) (at : Time) (db : Database)
    → is_claimed event_id db.inbox ≡ true
    → insert_inbox event_id at db ≡ (ok false, db)
unfolding insert_inbox
insert_inbox-old event_id at db h = rw h
