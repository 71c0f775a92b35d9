-- ===== src/Notification/Again.antt =====
-- A redelivered event does nothing that its first delivery has done.
use bu_vi.Base.{
  ◌≡◌, refl, String, Bool, true, false, some, List, [], ◌∷◌, if◌then◌else◌, ◌=s◌, has, Bool-cases,
  inl, inr, ap, ◌∙◌,
}
use bu_vi.Notification.Dispatcher.{
  Recipient, WebhookSubscription, Outbox, Answers, notify, notify_all, notify_each, deliver_webhook,
  deliver_all, webhook_event_types, handle_event, webhook_key,
}
use bu_vi.Notification.Redelivery.{
  Told, Called, notify-Told, notify-again, notify_all-settled, notify_each-settled,
  deliver_webhook-Called, deliver_webhook-again, deliver_all-settled,
}

module _ (key : String) where
  abbrev ToldOn : Recipient → List String → Outbox → Type 0
  ToldOn r [] o = Unit
  ToldOn r (channel ∷ channels) o = Told key r channel o × ToldOn r channels o

  abbrev ToldIf : Bool → Recipient → List String → Outbox → Type 0
  ToldIf true r channels o = ToldOn r channels o
  ToldIf false r channels o = Unit

  abbrev AllTold : List String → List Recipient → Outbox → Type 0
  AllTold channels [] o = Unit
  AllTold channels (r ∷ rs) o = ToldIf (r.status =s "active") r channels o × AllTold channels rs o

  abbrev AllCalled : List WebhookSubscription → Outbox → Type 0
  AllCalled [] o = Unit
  AllCalled (s ∷ ss) o = Called key s o × AllCalled ss o

  module _ (answers : Answers) where
    notify_all-ToldOn :
        (r : Recipient) (channels : List String) (o : Outbox)
        → ToldOn r channels (notify_all answers key r channels o)
    unfolding notify_all
    notify_all-ToldOn r [] o = tt
    notify_all-ToldOn r (channel ∷ channels) o = (
      notify_all-settled answers key r channels (channel =s "email") key r.user_id channel
          (notify answers key r channel o) (notify-Told answers key r channel o),
      notify_all-ToldOn r channels (notify answers key r channel o),
    )

    if-ToldIf :
        (b : Bool) (r : Recipient) (channels : List String) (o : Outbox)
        → ToldIf b r channels (if b then notify_all answers key r channels o else o)
    if-ToldIf true r channels o = notify_all-ToldOn r channels o
    if-ToldIf false r channels o = tt

    ToldOn-later :
        (r : Recipient) (told : List String) (channels : List String) (rs : List Recipient)
        (o : Outbox)
        → ToldOn r told o
        → ToldOn r told (notify_each answers key channels rs o)
    ToldOn-later r [] channels rs o h = tt
    ToldOn-later r (c ∷ told) channels rs o h = (
      notify_each-settled answers key channels rs (c =s "email") key r.user_id c o (h.0),
      ToldOn-later r told channels rs o (h.1),
    )

    ToldIf-later :
        (b : Bool) (r : Recipient) (channels : List String) (rs : List Recipient) (o : Outbox)
        → ToldIf b r channels o
        → ToldIf b r channels (notify_each answers key channels rs o)
    ToldIf-later true r channels rs o h = ToldOn-later r channels channels rs o h
    ToldIf-later false r channels rs o h = tt

    notify_each-AllTold :
        (channels : List String) (rs : List Recipient) (o : Outbox)
        → AllTold channels rs (notify_each answers key channels rs o)
    unfolding notify_each
    notify_each-AllTold channels [] o = tt
    notify_each-AllTold channels (r ∷ rs) o =
        let next = if r.status =s "active" then notify_all answers key r channels o else o in
        (
          ToldIf-later (r.status =s "active") r channels rs next
              (if-ToldIf (r.status =s "active") r channels o),
          notify_each-AllTold channels rs next,
        )

    ToldOn-called :
        (r : Recipient) (told : List String) (ss : List WebhookSubscription) (o : Outbox)
        → ToldOn r told o
        → ToldOn r told (deliver_all answers key ss o)
    ToldOn-called r [] ss o h = tt
    ToldOn-called r (c ∷ told) ss o h = (
      deliver_all-settled answers key ss (c =s "email") key r.user_id c o (h.0),
      ToldOn-called r told ss o (h.1),
    )

    ToldIf-called :
        (b : Bool) (r : Recipient) (channels : List String) (ss : List WebhookSubscription)
        (o : Outbox)
        → ToldIf b r channels o
        → ToldIf b r channels (deliver_all answers key ss o)
    ToldIf-called true r channels ss o h = ToldOn-called r channels ss o h
    ToldIf-called false r channels ss o h = tt

    AllTold-called :
        (channels : List String) (rs : List Recipient) (ss : List WebhookSubscription) (o : Outbox)
        → AllTold channels rs o
        → AllTold channels rs (deliver_all answers key ss o)
    AllTold-called channels [] ss o h = tt
    AllTold-called channels (r ∷ rs) ss o h = (
      ToldIf-called (r.status =s "active") r channels ss o (h.0),
      AllTold-called channels rs ss o (h.1),
    )

    deliver_all-AllCalled :
        (ss : List WebhookSubscription) (o : Outbox) → AllCalled ss (deliver_all answers key ss o)
    unfolding deliver_all
    deliver_all-AllCalled [] o = tt
    deliver_all-AllCalled (s ∷ ss) o = (
      deliver_all-settled answers key ss true (webhook_key key s) s.created_by "webhook"
          (deliver_webhook answers key s o) (deliver_webhook-Called answers key s o),
      deliver_all-AllCalled ss (deliver_webhook answers key s o),
    )

    notify_all-again :
        (r : Recipient) (channels : List String) (o : Outbox)
        → ToldOn r channels o
        → notify_all answers key r channels o ≡ o
    unfolding notify_all
    notify_all-again r [] o h = refl
    notify_all-again r (c ∷ channels) o h =
        ap (notify_all answers key r channels) (notify-again answers key r c o (h.0))
        ∙ notify_all-again r channels o (h.1)

    if-again :
        (b : Bool) (r : Recipient) (channels : List String) (o : Outbox)
        → ToldIf b r channels o
        → (if b then notify_all answers key r channels o else o) ≡ o
    if-again true r channels o h = notify_all-again r channels o h
    if-again false r channels o h = refl

    notify_each-again :
        (channels : List String) (rs : List Recipient) (o : Outbox)
        → AllTold channels rs o
        → notify_each answers key channels rs o ≡ o
    unfolding notify_each
    notify_each-again channels [] o h = refl
    notify_each-again channels (r ∷ rs) o h =
        ap (notify_each answers key channels rs)
          (if-again (r.status =s "active") r channels o (h.0))
        ∙ notify_each-again channels rs o (h.1)

    deliver_all-again :
        (ss : List WebhookSubscription) (o : Outbox)
        → AllCalled ss o
        → deliver_all answers key ss o ≡ o
    unfolding deliver_all
    deliver_all-again [] o h = refl
    deliver_all-again (s ∷ ss) o h =
        ap (deliver_all answers key ss) (deliver_webhook-again answers key s o (h.0))
        ∙ deliver_all-again ss o (h.1)

-- An event that could be parsed, and that is delivered again with the same recipients of the directory
-- and the same subscriptions, changes nothing: no row
-- is added or changed, no mail is handed to the mail server and no webhook is called a second time,
-- whatever the mail server and the receivers answer and whatever rows were there before.
pub handle_event-handle_event :
    (first second : Answers) (subject key : String) (channels : List String)
    (recipients : List Recipient) (subscribers : List WebhookSubscription) (o : Outbox)
    → (handle_event second subject key channels
        (some recipients)
        subscribers
        (handle_event first subject key channels (some recipients) subscribers o).1).1
      ≡ (handle_event first subject key channels (some recipients) subscribers o).1
unfolding handle_event
handle_event-handle_event first second subject key channels recipients subscribers o =
    let told = notify_each first key channels recipients o in
    let all_told = notify_each-AllTold key first channels recipients o in
    elim (Bool-cases (has subject webhook_event_types)) [
      | inr e ↦ rw e (notify_each-again key second channels recipients told all_told)
      | inl e ↦ rw e (
          ap (deliver_all second key subscribers) (
            notify_each-again key second channels recipients
              (deliver_all first key subscribers told)
              (AllTold-called key first channels recipients subscribers told all_told))
          ∙ deliver_all-again key second subscribers (deliver_all first key subscribers told)
              (deliver_all-AllCalled key first subscribers told))
    ]
