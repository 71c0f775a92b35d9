-- ===== src/Notification/Tests.antt =====
-- A denied tool invocation, of which two admins and two webhooks are told.
use bu_vi.Base.{has, ◌≡◌, refl, String, true, false, some, List, [], ◌∷◌, ◌=s◌}
use bu_vi.Notification.Dispatcher.{
  Recipient, WebhookSubscription, Outbox, Answers, handle_event, status_of, claim, finish,
  send_email, notify, notify_all, notify_each, call_webhook, deliver_webhook, deliver_all,
  notify_each, notify_all, notify, claim,
}
use bu_vi.Notification.Again.{handle_event-handle_event}

abbrev admins : List Recipient
admins =
    record { user_id = "u1"; email = "a@x"; status = "active" }
    ∷ record { user_id = "u2"; email = "b@x"; status = "deactivated" }
    ∷ []

abbrev hooks : List WebhookSubscription
hooks = record { id = "s1"; created_by = "u1" } ∷ record { id = "s2"; created_by = "u1" } ∷ []

abbrev down : Answers
down = record {
  accepts_email = λ to. false;
  has_secret = λ id. id =s "s1";
  accepts_webhook = λ id. true;
}

abbrev up : Answers
up = record { accepts_email = λ to. true; has_secret = λ id. true; accepts_webhook = λ id. true }

abbrev empty : Outbox
empty = record { rows = []; emails = []; deliveries = [] }

abbrev channels : List String
channels = "in_app" ∷ "email" ∷ []

handle_event-handle_event_example :
    (handle_event up "mcp.invocation.denied" "e1" channels
      (some admins)
      hooks
      (handle_event down "mcp.invocation.denied" "e1" channels (some admins) hooks empty).1).1
    ≡ (handle_event down "mcp.invocation.denied" "e1" channels (some admins) hooks empty).1
handle_event-handle_event_example =
    handle_event-handle_event down up "mcp.invocation.denied" "e1" channels admins hooks empty

one_mail :
    (handle_event down "mcp.invocation.denied" "e1" channels (some admins) hooks empty).1.emails
    ≡ "a@x" ∷ []
unfolding handle_event notify_each notify_all notify claim status_of send_email finish deliver_all
    deliver_webhook call_webhook has
one_mail = refl
