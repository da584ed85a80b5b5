-- ===== src/Notification/Tests.antt =====
-- An outbox with a message that was sent and one that waits.
use konzhitai.Prelude.{
  ℕ, ◌+◌, ◌≡◌, ◌≢◌, refl, true, String, String_discrete, text_ne, none, some, List, [], ◌∷◌,
}
use konzhitai.Notification.{DeliveryStatus, Delivery, Outside, World, deliver_due}
use konzhitai.Notification.Kept.{Forward}
use konzhitai.Notification.Final.{deliver_due-Forward}

abbrev steady : Outside String
steady = record {
  State = ℕ;
  now = λ s. (s, s + 1000);
  answers = λ s. (true, s);
  resolve = λ a b s. (some ("hook", "key"), s);
  send = λ a b m s. (some "r1", s + 1);
}

abbrev delivery : String → DeliveryStatus → ℕ → Delivery String
delivery id status attempts = record {
  id = id;
  event_type = "opened";
  status = status;
  attempts = attempts;
  next_attempt_at = 0;
  lease_until = none;
  last_error = "";
  response_id = "";
  created_at = 0;
  sent_at = none;
  updated_at = 0;
  payload = "text";
}

abbrev outbox : List (Delivery String)
outbox = delivery "a" DeliveryStatus.sent 1 ∷ delivery "b" DeliveryStatus.pending 0 ∷ []

abbrev begin : World steady
begin = (
  5,
  record {
    config = some (record { enabled = true; webhook_secret_id = "w"; signing_secret_id = "s" });
    outbox = outbox;
  },
)

abbrev statuses : List (Delivery String) → List DeliveryStatus
statuses [] = []
statuses (d ∷ ds) = d.status ∷ statuses ds

both_sent :
    statuses (deliver_due steady begin).1.1.outbox ≡ DeliveryStatus.sent ∷ DeliveryStatus.sent ∷ []
unfolding deliver_due String_discrete
both_sent = refl

b_ne_a : ◌≢◌ {A = String} "b" "a"
unfolding String_discrete
b_ne_a = text_ne "b" "a" refl

deliver_due-Forward_example : Forward outbox (deliver_due steady begin).1.1.outbox
deliver_due-Forward_example = deliver_due-Forward steady begin ((b_ne_a, tt), (tt, tt))
