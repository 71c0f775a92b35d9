-- ===== src/Notification/Dispatcher.antt =====
-- `handle` of application/services/dispatcher.py of apps/notification-service, with `claim` and
-- `finish` of notification_repository.py. The answers of the directory, the mail server, the secret
-- store and the webhooks' receivers are parameters. Payloads, templates, signatures and the count of
-- notifications are not modelled.
use bu_vi.Base.{
  String, Bool, false, ◌&&◌, Option, none, some, List, [], ◌∷◌, ◌++◌, map, if◌then◌else◌, ◌=s◌, has,
}
use Prim.Native.String.{◌++◌ as ◌+s◌}

pub record Notification : Type 0 where
  pub event_key : String
  pub user_id : String
  pub channel : String
  pub status : String

pub record Recipient : Type 0 where
  pub user_id : String
  pub email : String
  pub status : String

pub record WebhookSubscription : Type 0 where
  pub id : String
  pub created_by : String

-- The rows, the mails that were handed to the mail server, and the webhooks that were called.
pub record Outbox : Type 0 where
  pub rows : List Notification
  pub emails : List String
  pub deliveries : List String

-- What the mail server, the secret store and the receivers answer.
pub record Answers : Type 0 where
  pub accepts_email : String → Bool
  pub has_secret : String → Bool
  pub accepts_webhook : String → Bool

pub data Outcome : Type 0 where
  done retry drop : Outcome

abbrev pub is_row : String → String → String → Notification → Bool
is_row event_key user_id channel n =
    n.event_key =s event_key && (n.user_id =s user_id && n.channel =s channel)

-- the status of the row that the unique constraint allows once
unfoldable pub status_of : String → String → String → List Notification → Option String
status_of event_key user_id channel [] = none
status_of event_key user_id channel (n ∷ ns) =
    let rest = status_of event_key user_id channel ns in
    if is_row event_key user_id channel n then some n.status else rest

abbrev pub insert_or :
    String → String → String → String → List Notification → Option String → List Notification
insert_or event_key user_id channel status rows (some found) = rows
insert_or event_key user_id channel status rows none =
    rows
    ++ record { event_key = event_key; user_id = user_id; channel = channel; status = status } ∷ []

-- `claim`
unfoldable pub claim : String → String → String → String → List Notification → List Notification
claim event_key user_id channel status rows =
    insert_or event_key user_id channel status rows (status_of event_key user_id channel rows)

abbrev pub finish_row : String → String → String → Bool → Notification → Notification
finish_row event_key user_id channel ok n =
    if is_row event_key user_id channel n
    then record n { status = if ok then "sent" else "failed" }
    else n

-- `finish`
unfoldable pub finish : String → String → String → Bool → List Notification → List Notification
finish event_key user_id channel ok rows = map (finish_row event_key user_id channel ok) rows

abbrev pub is_queued : Option String → Bool
is_queued none = false
is_queued (some status) = status =s "queued"

-- `_send_email`
unfoldable pub send_email : Answers → String → Recipient → Outbox → Outbox
send_email answers event_key r o = record o {
  rows = finish event_key r.user_id "email" (answers.accepts_email r.email) o.rows;
  emails = r.email ∷ o.emails;
}

-- one round of the loop over the channels
unfoldable pub notify : Answers → String → Recipient → String → Outbox → Outbox
notify answers event_key r channel o =
    let rows =
      claim event_key r.user_id channel (if channel =s "in_app" then "sent" else "queued") o.rows in
    let claimed = record o { rows = rows } in
    if channel =s "email" && is_queued (status_of event_key r.user_id channel rows)
    then send_email answers event_key r claimed
    else claimed

unfoldable pub notify_all : Answers → String → Recipient → List String → Outbox → Outbox
notify_all answers event_key r [] o = o
notify_all answers event_key r (channel ∷ channels) o =
    notify_all answers event_key r channels (notify answers event_key r channel o)

unfoldable pub notify_each : Answers → String → List String → List Recipient → Outbox → Outbox
notify_each answers event_key channels [] o = o
notify_each answers event_key channels (r ∷ rs) o =
    notify_each answers event_key channels rs
      (if r.status =s "active" then notify_all answers event_key r channels o else o)

abbrev pub webhook_key : String → WebhookSubscription → String
webhook_key event_key s = event_key +s ("#" +s s.id)

-- the call of the receiver, or the refusal to send unsigned
unfoldable pub call_webhook : Answers → String → WebhookSubscription → Outbox → Outbox
call_webhook answers event_key s o =
    if answers.has_secret s.id
    then record o {
      rows =
          finish (webhook_key event_key s) s.created_by "webhook" (answers.accepts_webhook s.id)
            o.rows;
      deliveries = s.id ∷ o.deliveries;
    }
    else record o { rows = finish (webhook_key event_key s) s.created_by "webhook" false o.rows }

-- `_deliver_webhook`
unfoldable pub deliver_webhook : Answers → String → WebhookSubscription → Outbox → Outbox
deliver_webhook answers event_key s o =
    let rows = claim (webhook_key event_key s) s.created_by "webhook" "queued" o.rows in
    let claimed = record o { rows = rows } in
    if is_queued (status_of (webhook_key event_key s) s.created_by "webhook" rows)
    then call_webhook answers event_key s claimed
    else claimed

unfoldable pub deliver_all : Answers → String → List WebhookSubscription → Outbox → Outbox
deliver_all answers event_key [] o = o
deliver_all answers event_key (s ∷ ss) o =
    deliver_all answers event_key ss (deliver_webhook answers event_key s o)

abbrev pub webhook_event_types : List String
webhook_event_types =
    "dashboard.tile.pinned" ∷ "metadata.sync.completed" ∷ "mcp.invocation.denied" ∷ []

-- `handle`, of an event that could be parsed, with the channels of its route
unfoldable pub handle_event :
    Answers
    → String
    → String
    → List String
    → Option (List Recipient)
    → List WebhookSubscription
    → Outbox
    → Outcome × Outbox
handle_event answers subject event_key channels none subscribers o = (retry, o)
handle_event answers subject event_key channels (some recipients) subscribers o =
    let told = notify_each answers event_key channels recipients o in
    (
      done,
      if has subject webhook_event_types
          then deliver_all answers event_key subscribers told
          else told,
    )
