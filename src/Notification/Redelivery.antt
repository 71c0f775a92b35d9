-- ===== src/Notification/Redelivery.antt =====
-- What is settled by a delivery of an event, and that it stays settled.
use bu_vi.Base.{
  ◌≡◌, refl, String, Bool, true, false, ◌&&◌, List, [], ◌∷◌, arith, if◌then◌else◌, ◌=s◌, =s_iff,
  Bool-cases, inl, inr,
}
use bu_vi.Notification.Dispatcher.{
  Notification, Recipient, WebhookSubscription, Outbox, Answers, status_of, claim, finish,
  is_queued, send_email, notify, notify_all, notify_each, webhook_key, call_webhook,
  deliver_webhook, deliver_all,
}
use bu_vi.Notification.Statuses.{
  is_settled, claim-settled, finish-settled, finish-settles, claim-found, claim-again,
  settled_found, settled_idle, idle_settled,
}

-- Nothing is left to be done for a recipient on a channel, or for a subscription.
abbrev pub Told : String → Recipient → String → Outbox → Type 0
Told key r channel o =
    is_settled (channel =s "email") (status_of key r.user_id channel o.rows) ≡ true

abbrev pub Called : String → WebhookSubscription → Outbox → Type 0
Called key s o =
    is_settled true (status_of (webhook_key key s) s.created_by "webhook" o.rows) ≡ true

sent_settled :
    (k u channel : String) (ok : Bool) (rows : List Notification)
    → channel ≡ "email"
    → is_queued (status_of k u channel rows) ≡ true
    → is_settled (channel =s "email") (status_of k u channel (finish k u "email" ok rows)) ≡ true
sent_settled k u channel ok rows c h = rw c (finish-settles true k u "email" ok rows (rw c at h))

module _ (answers : Answers) (key : String) where
  pub notify-Told :
      (r : Recipient) (channel : String) (o : Outbox)
      → Told key r channel (notify answers key r channel o)
  unfolding notify send_email
  notify-Told r channel o =
      let rows =
        claim key r.user_id channel (if channel =s "in_app" then "sent" else "queued") o.rows in
      let found = status_of key r.user_id channel rows in
      elim (Bool-cases (channel =s "email" && is_queued found)) [
        | inl e ↦ rw e (
            sent_settled key r.user_id channel (answers.accepts_email r.email) rows
              ((=s_iff channel "email").0 (ground arith)) (ground arith))
        | inr e ↦ rw e (
            idle_settled (channel =s "email") found _
              (claim-found key r.user_id channel (if channel =s "in_app" then "sent" else "queued")
                o.rows).1
              e)
      ]

  pub notify-again :
      (r : Recipient) (channel : String) (o : Outbox)
      → Told key r channel o
      → notify answers key r channel o ≡ o
  unfolding notify
  notify-again r channel o h =
      let (s, e) = settled_found (channel =s "email") _ h in
      rw
        (claim-again key r.user_id channel (if channel =s "in_app" then "sent" else "queued") s
          o.rows e)
        (rw (settled_idle (channel =s "email") _ h) refl)

  -- what one round leaves of another one
  pub notify-settled :
      (r : Recipient) (channel : String) (sends : Bool) (k u ch : String) (o : Outbox)
      → is_settled sends (status_of k u ch o.rows) ≡ true
      → is_settled sends (status_of k u ch (notify answers key r channel o).rows) ≡ true
  unfolding notify send_email
  notify-settled r channel sends k u ch o h =
      let rows =
        claim key r.user_id channel (if channel =s "in_app" then "sent" else "queued") o.rows in
      let claimed =
        claim-settled sends k u ch key r.user_id channel
          (if channel =s "in_app" then "sent" else "queued") o.rows h in
      elim (Bool-cases (channel =s "email" && is_queued (status_of key r.user_id channel rows))) [
        | inl e ↦ rw e (
            finish-settled sends k u ch key r.user_id "email" (answers.accepts_email r.email) rows
              claimed)
        | inr e ↦ rw e claimed
      ]

  pub notify_all-settled :
      (r : Recipient) (channels : List String) (sends : Bool) (k u ch : String) (o : Outbox)
      → is_settled sends (status_of k u ch o.rows) ≡ true
      → is_settled sends (status_of k u ch (notify_all answers key r channels o).rows) ≡ true
  unfolding notify_all
  notify_all-settled r [] sends k u ch o h = h
  notify_all-settled r (channel ∷ channels) sends k u ch o h =
      notify_all-settled r channels sends k u ch (notify answers key r channel o)
        (notify-settled r channel sends k u ch o h)

  pub if_rows :
      (b sends : Bool) (k u ch : String) (x y : Outbox)
      → is_settled sends (status_of k u ch x.rows) ≡ true
      → is_settled sends (status_of k u ch y.rows) ≡ true
      → is_settled sends (status_of k u ch (if b then x else y).rows) ≡ true
  if_rows true sends k u ch x y h n = h
  if_rows false sends k u ch x y h n = n

  pub notify_each-settled :
      (channels : List String) (rs : List Recipient) (sends : Bool) (k u ch : String) (o : Outbox)
      → is_settled sends (status_of k u ch o.rows) ≡ true
      → is_settled sends (status_of k u ch (notify_each answers key channels rs o).rows) ≡ true
  unfolding notify_each
  notify_each-settled channels [] sends k u ch o h = h
  notify_each-settled channels (r ∷ rs) sends k u ch o h =
      notify_each-settled channels rs sends k u ch
        (if r.status =s "active" then notify_all answers key r channels o else o)
        (if_rows (r.status =s "active") sends k u ch (notify_all answers key r channels o) o
          (notify_all-settled r channels sends k u ch o h) h)

  pub deliver_webhook-settled :
      (s : WebhookSubscription) (sends : Bool) (k u ch : String) (o : Outbox)
      → is_settled sends (status_of k u ch o.rows) ≡ true
      → is_settled sends (status_of k u ch (deliver_webhook answers key s o).rows) ≡ true
  unfolding deliver_webhook call_webhook
  deliver_webhook-settled s sends k u ch o h =
      let rows = claim (webhook_key key s) s.created_by "webhook" "queued" o.rows in
      let claimed =
        claim-settled sends k u ch (webhook_key key s) s.created_by "webhook" "queued" o.rows h in
      elim (Bool-cases (is_queued (status_of (webhook_key key s) s.created_by "webhook" rows))) [
        | inl e ↦ rw e (
            if_rows (answers.has_secret s.id) sends k u ch _ _
              (finish-settled sends k u ch (webhook_key key s) s.created_by "webhook"
                (answers.accepts_webhook s.id) rows claimed)
              (finish-settled sends k u ch (webhook_key key s) s.created_by "webhook" false rows
                claimed))
        | inr e ↦ rw e claimed
      ]

  pub deliver_webhook-Called :
      (s : WebhookSubscription) (o : Outbox) → Called key s (deliver_webhook answers key s o)
  unfolding deliver_webhook call_webhook
  deliver_webhook-Called s o =
      let rows = claim (webhook_key key s) s.created_by "webhook" "queued" o.rows in
      let found = status_of (webhook_key key s) s.created_by "webhook" rows in
      elim (Bool-cases (is_queued found)) [
        | inl e ↦ rw e (
            if_rows (answers.has_secret s.id) true (webhook_key key s) s.created_by "webhook" _ _
              (finish-settles true (webhook_key key s) s.created_by "webhook"
                (answers.accepts_webhook s.id) rows e)
              (finish-settles true (webhook_key key s) s.created_by "webhook" false rows e))
        | inr e ↦ rw e (
            idle_settled true found _
              (claim-found (webhook_key key s) s.created_by "webhook" "queued" o.rows).1 e)
      ]

  pub deliver_webhook-again :
      (s : WebhookSubscription) (o : Outbox) → Called key s o → deliver_webhook answers key s o ≡ o
  unfolding deliver_webhook
  deliver_webhook-again s o h =
      let (t, e) = settled_found true _ h in
      rw (claim-again (webhook_key key s) s.created_by "webhook" "queued" t o.rows e)
        (rw (settled_idle true _ h) refl)

  pub deliver_all-settled :
      (ss : List WebhookSubscription) (sends : Bool) (k u ch : String) (o : Outbox)
      → is_settled sends (status_of k u ch o.rows) ≡ true
      → is_settled sends (status_of k u ch (deliver_all answers key ss o).rows) ≡ true
  unfolding deliver_all
  deliver_all-settled [] sends k u ch o h = h
  deliver_all-settled (s ∷ ss) sends k u ch o h =
      deliver_all-settled ss sends k u ch (deliver_webhook answers key s o)
        (deliver_webhook-settled s sends k u ch o h)
