-- ===== src/UseCases/Relay/Sweeping.antt =====
-- A sweep keeps every announcement (internal/application/outbox/relay.go).
use mathlib.Core.Path.{subst}
use kafka_lab.Base.{
  All, All-imp, Any, Bool, Bool-cases, List, Option, [], false, inl, inr, keep, length, ltb, none,
  not, refl, some, sym, true, ℕ, ◌&&◌, ◌==◌, ◌||◌, ◌∷◌, ◌≡◌,
}
use kafka_lab.Base.Time.{Time}
use kafka_lab.Base.Errors.{Error, Result, err, join, ok, outbox_storage}
use kafka_lab.Database.{Action, Context, Database, OutboxRow, after, claim_unpublished, exec, pure}
use kafka_lab.Database.Transaction.{
  CommitAnswer, Session, Terms, begin, commit, committed, failed, finish, inside_of, outbox_terms,
  said_in, storage_within_tx, within_tx,
}
use kafka_lab.Database.Outbox.{
  claim_batch, claimable, is_unpublished, mark_batch, max_claim, take_rows,
}
use kafka_lab.Kafka.Detours.{Produced}
use kafka_lab.Kafka.Publisher.{message, publish}
use kafka_lab.Kafka.Publisher.Reading.{IsOnTopic, publish-IsOnTopic, publish-keeps}
use kafka_lab.UseCases.Relay.{
  Swept, Weather, Wiring, ids_of, log_after, mark_claimed, publish_claimed, run, sweep, sweep_in,
}
use kafka_lab.UseCases.Relay.Announced.{AreAnnounced, Fit, IsAbove, taken-Fit}
use kafka_lab.UseCases.Relay.Marking.{Announces, mark_batch-Announces}

-- A claim changes nothing and takes rows off the table.
abbrev pub Claimed : (ℕ → Bool) → ℕ → Database → Result (List OutboxRow) × Database → Type 0
Claimed locked limit db (ok rows, db') =
    (db' ≡ db)
    × (rows ≡ take_rows limit (keep (λ row. is_unpublished row && not (locked row.id)) db.outbox))
Claimed locked limit db (err e, db') = db' ≡ db

Claimed-under :
    (fault : Option Error) (locked : ℕ → Bool) (limit : ℕ) (db : Database)
    → Claimed locked limit db (
        exec fault (λ e. join (outbox_storage ∷ []) e) (pure (claimable locked limit db.outbox)) db)
unfolding claimable
Claimed-under none locked limit db = (refl, refl)
Claimed-under (some e) locked limit db = refl

pub claim_batch-Claimed :
    (ctx : Context) (locked : ℕ → Bool) (limit : ℕ) (db : Database)
    → Claimed locked limit db (claim_batch ctx locked limit db)
unfolding claim_batch claimable
claim_batch-Claimed ctx locked limit db = elim (Bool-cases (limit == 0 || ltb max_claim limit)) [
  | inl e ↦ rw e refl
  | inr e ↦ elim (Bool-cases ctx.inside) [
    | inl i ↦ rw (e, i) (Claimed-under (ctx.fault claim_unpublished) locked limit db)
    | inr i ↦ rw (e, i) refl
  ]
]

Claimed-tables :
    (locked : ℕ → Bool) (limit : ℕ) (db : Database) (claim : Result (List OutboxRow) × Database)
    → Claimed locked limit db claim
    → claim.1 ≡ db
Claimed-tables locked limit db (ok rows, db') h = h.0
Claimed-tables locked limit db (err e, db') h = h

pub claim_batch-tables :
    (ctx : Context) (locked : ℕ → Bool) (limit : ℕ) (db : Database)
    → (claim_batch ctx locked limit db).1 ≡ db
claim_batch-tables ctx locked limit db =
    Claimed-tables locked limit db _ (claim_batch-Claimed ctx locked limit db)

-- Whatever the end of a transaction was, the tables are those before it or those of its work.
committed_or_not :
    {A : Type 0} (P : Database → Type 0) (t : Terms) (c : CommitAnswer) (undo : Option Error)
    (a : A) (db db' : Database)
    → P db
    → P db'
    → P (said_in t (commit c undo a db db')).1
unfolding commit
committed_or_not P t committed undo a db db' h h' = h'
committed_or_not P t (failed e true) undo a db db' h h' = h'
committed_or_not P t (failed e false) undo a db db' h h' = h

finished :
    {A : Type 0} (P : Database → Type 0) (t : Terms) (s : Session) (db : Database)
    (work : Result A × Database)
    → P db
    → P work.1
    → P (said_in t (finish s db work)).1
unfolding finish
finished P t s db (ok a, db') h h' =
    committed_or_not P t s.commit_answer s.rollback_fault a db db' h h'
finished P t s db (err e, db') h h' = h

begun :
    (P : Database → List Produced → Type 0) (b : Option Error) (s : Session)
    (fn : Context → Action ℕ) (db : Database) (log log' : List Produced)
    → P db log
    → P db log'
    → P (fn (inside_of s) db).1 log'
    → P (said_in outbox_terms (begin b s fn db)).1 (log_after b log (fn (inside_of s) db, log'))
unfolding begin
begun P (some e) s fn db log log' h h' worked = h
begun P none s fn db log log' h h' worked =
    finished (λ d. P d log') outbox_terms s db (fn (inside_of s) db) h' worked

AreAnnounced-keeps :
    (r : Wiring) (log log' : List Produced) (rows : List OutboxRow)
    → ((P : Produced → Type 0) → Any P log → Any P log')
    → AreAnnounced r log rows
    → AreAnnounced r log' rows
AreAnnounced-keeps r log log' rows keeps =
    All-imp _ _ rows (λ row h e. keeps (λ p. message r.json r.encode r.topic row ≡ ok p) (h e))

after-Announces :
    (r : Wiring) (m : Result (Unit {0}) × Database) (n : ℕ) (log : List Produced)
    → Announces r m.1 log
    → Announces r (after m (λ _. pure n)).1 log
after-Announces r (ok _, db) n log h = h
after-Announces r (err e, db) n log h = h

-- What `publish_claimed` stores and marks.
marked_after :
    (r : Wiring) (ctx : Context) (at : Time) (rows : List OutboxRow)
    (sent : Option Error × List Produced) (db : Database)
    → Announces r db sent.1
    → (sent.0 ≡ none → Fit (IsOnTopic r.json r.encode r.topic sent.1) (ids_of rows) db.outbox)
    → Announces r (mark_claimed ctx at rows sent db).0.1 (mark_claimed ctx at rows sent db).1
unfolding mark_claimed
marked_after r ctx at rows (some e, log) db h f = h
marked_after r ctx at rows (none, log) db h f =
    after-Announces r (mark_batch ctx (ids_of rows) at db) (length rows) log
      (mark_batch-Announces r ctx at (ids_of rows) db log h (f refl))

-- The log only grows, and the tables announce with it.
abbrev Kept : Wiring → Database → List Produced → Swept → Type 1
Kept r db log swept =
    ((P : Produced → Type 0) → Any P log → Any P swept.1) × Announces r swept.0.1 swept.1

mark_claimed-log :
    (ctx : Context) (at : Time) (rows : List OutboxRow) (sent : Option Error × List Produced)
    (db : Database)
    → (mark_claimed ctx at rows sent db).1 ≡ sent.1
unfolding mark_claimed
mark_claimed-log ctx at rows (some e, log) db = refl
mark_claimed-log ctx at rows (none, log) db = refl

-- The rows of a claim are on the topic once they are published, and their ids name no other row.
claimed-Fit :
    (Q : OutboxRow → Type 0) (locked : ℕ → Bool) (limit : ℕ) (db : Database) (rows : List OutboxRow)
    → rows ≡ take_rows limit (keep (λ row. is_unpublished row && not (locked row.id)) db.outbox)
    → IsAbove 0 db.outbox
    → All Q rows
    → Fit Q (ids_of rows) db.outbox
claimed-Fit Q locked limit db rows e above =
    subst (λ l. All Q l → Fit Q (ids_of l) db.outbox) (sym e)
      (taken-Fit Q (λ row. is_unpublished row && not (locked row.id)) limit 0 db.outbox above)

published_and_marked :
    (r : Wiring) (ctx : Context) (w : Weather) (rows : List OutboxRow) (db : Database)
    (log : List Produced)
    → rows ≡ take_rows r.batch (keep (λ row. is_unpublished row && not (w.locked row.id)) db.outbox)
    → Announces r db log
    → Kept r db log
        (mark_claimed ctx w.now rows (publish r.json r.encode r.topic w.answers rows log) db)
published_and_marked r ctx w rows db log e h =
    let sent = publish r.json r.encode r.topic w.answers rows log in
    let keeps =
      λ (P : Produced → Type 0). publish-keeps r.json r.encode r.topic P w.answers rows log in
    (
      (λ P x. subst (Any P) (sym (mark_claimed-log ctx w.now rows sent db)) (keeps P x)),
      marked_after r ctx w.now rows sent db
          (record {
            ids = h.ids;
            announced = AreAnnounced-keeps r log sent.1 db.outbox keeps h.announced;
          })
          (λ acked_all.
            claimed-Fit (IsOnTopic r.json r.encode r.topic sent.1) w.locked r.batch db rows e h.ids
              (publish-IsOnTopic r.json r.encode r.topic w.answers rows log acked_all)),
    )

publish_claimed-Kept :
    (r : Wiring) (ctx : Context) (w : Weather) (claim : Result (List OutboxRow) × Database)
    (db : Database) (log : List Produced)
    → Claimed w.locked r.batch db claim
    → Announces r db log
    → Kept r db log (publish_claimed r ctx w claim log)
unfolding publish_claimed
publish_claimed-Kept r ctx w (err e, db') db log c h =
    ((λ P x. x), subst (λ d. Announces r d log) (sym c) h)
publish_claimed-Kept r ctx w (ok [], db') db log c h =
    ((λ P x. x), subst (λ d. Announces r d log) (sym c.0) h)
publish_claimed-Kept r ctx w (ok (row ∷ rows), db') db log c h =
    subst
      (λ d. Kept r db log (
        mark_claimed ctx w.now (row ∷ rows)
          (publish r.json r.encode r.topic w.answers (row ∷ rows) log) d))
      (sym c.0) (published_and_marked r ctx w (row ∷ rows) db log c.1 h)

-- One sweep, in any weather and however its transaction ends.
pub sweep-Announces :
    (r : Wiring) (w : Weather) (db : Database) (log : List Produced)
    → Announces r db log
    → Announces r (sweep r w (db, log)).0.1 (sweep r w (db, log)).1
unfolding sweep sweep_in within_tx storage_within_tx
sweep-Announces r w db log h =
    let inside = inside_of w.session in
    let claim = claim_batch inside w.locked r.batch db in
    let swept = publish_claimed r inside w claim log in
    let (keeps, announces) =
      publish_claimed-Kept r inside w claim db log (claim_batch-Claimed inside w.locked r.batch db)
        h in
    begun (λ d l. Announces r d l) w.session.begin_fault w.session
      (λ ctx d. (sweep_in r w log ctx d).0) db log swept.1 h
      (record {
        ids = h.ids;
        announced = AreAnnounced-keeps r log swept.1 db.outbox keeps h.announced;
      })
      announces

-- Whatever the database, the brokers and the clock do to any number of sweeps, and however their
-- transactions end: if the outbox was in the order of its ids and each row marked published had its
-- message on the topic, then so it is after them. So no row is ever marked whose message the brokers
-- have not stored.
pub run-Announces :
    (r : Wiring) (ws : List Weather) (db : Database) (log : List Produced)
    → Announces r db log
    → Announces r (run r ws (db, log)).0 (run r ws (db, log)).1
unfolding run
run-Announces r [] db log h = h
run-Announces r (w ∷ ws) db log h =
    let swept = sweep r w (db, log) in
    run-Announces r ws swept.0.1 swept.1 (sweep-Announces r w db log h)
