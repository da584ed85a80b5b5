-- ===== src/Notification.antt =====
-- internal/notification/outbox.go and the statements of its repository in internal/notification/postgres.go, on the rows
-- of `notification_outbox`. What is outside (the clock, the database's answering, the secrets and the messages' way to
-- Feishu) is the parameter `Outside`; the type of messages is one too. One worker runs at a time. The texts of the
-- failures are shorter than the 256 bytes to which `MarkFailed` cuts them.
pub mod Kept
pub mod Final
mod Tests
use konzhitai.Prelude.{
  ℕ, zero, suc, ◌+◌, String, Bool, true, false, not, ◌&&◌, ◌||◌, Option, none, some, List, [], ◌∷◌,
  map, any, Result, ok, err, if◌then◌else◌, ◌==◌, string_eq, leb, ltb,
}
use konzhitai.Prelude.TextOrder.{str_less}
use konzhitai.Clock.{Time, before, add, minute, hour}
use konzhitai.Prelude.Int.{ℤ, pos, ◌*ℤ◌}

pub data DeliveryStatus : Type 0 where
  pending sending retrying sent failed : DeliveryStatus

pub record Delivery (Message : Type 0) : Type 0 where
  pub id : String
  pub event_type : String
  pub status : DeliveryStatus
  pub attempts : ℕ
  pub next_attempt_at : Time
  pub lease_until : Option Time
  pub last_error : String
  pub response_id : String
  pub created_at : Time
  pub sent_at : Option Time
  pub updated_at : Time
  pub payload : Message

pub record Config : Type 0 where
  pub enabled : Bool
  pub webhook_secret_id : String
  pub signing_secret_id : String

pub record Database (Message : Type 0) : Type 0 where
  pub config : Option Config
  pub outbox : List (Delivery Message)

pub data Error : Type 0 where
  delivery_not_found : Error
  failure : String → Error

-- `resolve` answers with both values, or not.
pub record Outside (Message : Type 0) : Type 1 where
  pub State : Type 0
  pub now : State → Time × State
  pub answers : State → Bool × State
  pub resolve : String → String → State → Option (String × String) × State
  pub send : String → String → Message → State → Option String × State

-- `retryDelay`
abbrev pub retry_delay : ℕ → ℤ
retry_delay (suc zero) = minute
retry_delay (suc (suc zero)) = pos 5 *ℤ minute
retry_delay (suc (suc (suc zero))) = pos 15 *ℤ minute
retry_delay (suc (suc (suc (suc zero)))) = hour
retry_delay _ = pos 6 *ℤ hour

abbrev pub is_sending : DeliveryStatus → Bool
is_sending DeliveryStatus.sending = true
is_sending _ = false

abbrev not_after : Option Time → Time → Bool
not_after none now = false
not_after (some t) now = leb t now

abbrev pub enabled_config : Option Config → Option Config
enabled_config none = none
enabled_config (some c) = if c.enabled then some c else none

module _ {Message : Type 0} where
  -- `ClaimDue`
  abbrev pub due : Time → Delivery Message → Bool
  due now d = elim d.status [
    | DeliveryStatus.pending ↦ leb d.next_attempt_at now
    | DeliveryStatus.retrying ↦ leb d.next_attempt_at now
    | DeliveryStatus.sending ↦ not_after d.lease_until now
    | DeliveryStatus.sent ↦ false
    | DeliveryStatus.failed ↦ false
  ]

  abbrev pub earlier : Delivery Message → Delivery Message → Bool
  earlier a b =
      ltb a.next_attempt_at b.next_attempt_at
      || leb a.next_attempt_at b.next_attempt_at
        && (ltb a.created_at b.created_at || leb a.created_at b.created_at && str_less a.id b.id)

  abbrev pub candidate : Time → List (Delivery Message) → Option (Delivery Message)
  candidate now [] = none
  candidate now (d ∷ ds) = elim (candidate now ds) [
    | none ↦ if due now d then some d else none
    | some e ↦ if due now d && not (earlier e d) then some d else some e
  ]

  abbrev pub claimed : Time → Delivery Message → Delivery Message
  claimed now d = record d {
    status = DeliveryStatus.sending;
    attempts = d.attempts + 1;
    lease_until = some (add now (pos 30_000_000_000));
    updated_at = now;
  }

  abbrev pub update :
      String
      → (Delivery Message → Delivery Message)
      → List (Delivery Message)
      → List (Delivery Message)
  update id f ds = map (λ d. if d.id == id then f d else d) ds

  -- A statement on the delivery that is being sent; without one the answer is `ErrDeliveryNotFound`.
  abbrev pub if_sending :
      (Delivery Message → Delivery Message) → Delivery Message → Delivery Message
  if_sending f d = if is_sending d.status then f d else d

  abbrev pub update_sending :
      String
      → (Delivery Message → Delivery Message)
      → Database Message
      → Result Error (Unit {0}) × Database Message
  update_sending id f db =
      if any (λ d. d.id == id && is_sending d.status) db.outbox
      then (ok tt, record db { outbox = update id (if_sending f) db.outbox })
      else (err delivery_not_found, db)

  -- `MarkSent`
  abbrev pub mark_sent :
      String → String → Time → Database Message → Result Error (Unit {0}) × Database Message
  mark_sent id response_id at = update_sending id λ d. record d {
    status = DeliveryStatus.sent;
    response_id = response_id;
    sent_at = some at;
    lease_until = none;
    last_error = "";
    updated_at = at;
  }

  -- `MarkFailed`
  abbrev pub mark_failed :
      String
      → String
      → Time
      → Bool
      → Time
      → Database Message
      → Result Error (Unit {0}) × Database Message
  mark_failed id last_error next terminal at = update_sending id λ d. record d {
    status = if terminal then DeliveryStatus.failed else DeliveryStatus.retrying;
    next_attempt_at = next;
    lease_until = none;
    last_error = last_error;
    updated_at = at;
  }

  -- The claim with the two secrets of the configuration.
  abbrev pub claim_due :
      Time → Database Message → Option (Delivery Message × Config) × Database Message
  claim_due now db = elim (enabled_config db.config) [
    | none ↦ (none, db)
    | some c ↦ elim (candidate now db.outbox) [
      | none ↦ (none, db)
      | some d ↦
          (some (claimed now d, c), record db { outbox = update d.id (claimed now) db.outbox })
    ]
  ]

module _ {Message : Type 0} (outside : Outside Message) where
  open outside use {State, now, answers, resolve, send}

  abbrev pub World : Type 0
  World = State × Database Message

  -- A statement is carried out where the database answers.
  abbrev pub statement :
      (Database Message → Result Error (Unit {0}) × Database Message)
      → World
      → Result Error (Unit {0}) × World
  statement f (s, db) =
      let (up, t) = answers s in
      if up then ((f db).0, (t, (f db).1)) else (err (failure "outbox"), (t, db))

  -- `recordFailure`
  abbrev pub record_failure :
      Delivery Message → String → Time → World → Result Error (Unit {0}) × World
  record_failure d message at =
      let terminal = leb 24 d.attempts in
      statement (
        mark_failed d.id message (if terminal then at else add at (retry_delay d.attempts)) terminal
          at)

  abbrev pub sent_or_failed :
      Delivery Message
      → Time
      → Option String × State
      → Database Message
      → Result Error (Unit {0}) × World
  sent_or_failed d at (none, s) db = record_failure d "飞书消息发送失败" at (s, db)
  sent_or_failed d at (some response_id, s) db = statement (mark_sent d.id response_id at) (s, db)

  abbrev pub resolved_or_failed :
      Delivery Message
      → Time
      → Option (String × String) × State
      → Database Message
      → Result Error (Unit {0}) × World
  resolved_or_failed d at (none, s) db = record_failure d "读取飞书通知凭据失败" at (s, db)
  resolved_or_failed d at (some (webhook, signing), s) db =
      sent_or_failed d at (send webhook signing d.payload s) db

  -- `deliver`
  unfoldable pub deliver :
      Delivery Message → Config → Time → World → Result Error (Unit {0}) × World
  deliver d c at (s, db) =
      resolved_or_failed d at (resolve c.webhook_secret_id c.signing_secret_id s) db

  -- One round of the loop; `none` goes on.
  abbrev pub next_round : Result Error (Unit {0}) × World → Option (Result Error (Unit {0})) × World
  next_round (ok _, w) = (none, w)
  next_round (err e, w) = (some (err e), w)

  abbrev pub deliver_claim :
      Time
      → State
      → Option (Delivery Message × Config) × Database Message
      → Option (Result Error (Unit {0})) × World
  unfolding deliver
  deliver_claim at s (none, db) = (some (ok tt), (s, db))
  deliver_claim at s (some (d, c), db) = next_round (deliver d c at (s, db))

  unfoldable pub deliver_one : World → Option (Result Error (Unit {0})) × World
  unfolding deliver_claim
  deliver_one (s, db) =
      let (at, t) = now s in
      let (up, u) = answers t in
      if up then deliver_claim at u (claim_due at db) else (some (err (failure "outbox")), (u, db))

  unfoldable pub deliver_rounds : ℕ → World → Result Error (Unit {0}) × World
  unfolding deliver_one
  deliver_rounds zero w = (ok tt, w)
  deliver_rounds (suc n) w =
      let first = deliver_one w in
      let rest = deliver_rounds n first.1 in elim first.0 [ some r ↦ (r, first.1) | none ↦ rest ]

  -- `DeliverDue`
  unfoldable pub deliver_due : World → Result Error (Unit {0}) × World
  unfolding deliver_rounds
  deliver_due w = deliver_rounds 100 w
