-- ===== src/Notification/Statuses.antt =====
-- What `claim` and `finish` of apps/notification-service do to the status of a row.
use bu_vi.Base.{
  ◌≡◌, refl, String, Bool, true, false, not, ◌&&◌, ◌||◌, Option, none, some, List, [], ◌∷◌, ◌++◌,
  arith, if◌then◌else◌, ◌=s◌, =s_iff, Bool-cases, inl, inr,
}
use bu_vi.Notification.Dispatcher.{
  Notification, Outbox, is_row, status_of, insert_or, claim, finish_row, finish, is_queued,
}

status_of-append :
    (k u ch s : String) (rows new : List Notification)
    → status_of k u ch rows ≡ some s
    → status_of k u ch (rows ++ new) ≡ some s
unfolding status_of
status_of-append k u ch s [] new e = absurd (ground arith)
status_of-append k u ch s (n ∷ ns) new e = elim (Bool-cases (is_row k u ch n)) [
  | inl b ↦ rw (b, status_of) (rw (b, status_of) at e)
  | inr b ↦ rw (b, status_of) (status_of-append k u ch s ns new (rw (b, status_of) at e))
]

finish_row-is_row :
    (k u ch k' u' ch' : String) (ok : Bool) (n : Notification)
    → is_row k u ch (finish_row k' u' ch' ok n) ≡ is_row k u ch n
finish_row-is_row k u ch k' u' ch' ok n = elim (Bool-cases (is_row k' u' ch' n)) [
  | inl b ↦ rw b refl
  | inr b ↦ rw b refl
]

status_of-new :
    (k u ch status : String) (rows : List Notification)
    → status_of k u ch rows ≡ none
    → status_of k u ch
        (rows ++ record { event_key = k; user_id = u; channel = ch; status = status } ∷ [])
      ≡ some status
unfolding status_of
status_of-new k u ch status [] e =
    rw ((=s_iff k k).1 refl, (=s_iff u u).1 refl, (=s_iff ch ch).1 refl) refl
status_of-new k u ch status (n ∷ ns) e = elim (Bool-cases (is_row k u ch n)) [
  | inl b ↦ absurd (ground (arith, rw (b, status_of) at e))
  | inr b ↦ rw (b, status_of) (status_of-new k u ch status ns (rw (b, status_of) at e))
]

module _ (sends : Bool) where
  -- There is a row, and nothing is left to be sent for it.
  abbrev pub is_settled : Option String → Bool
  is_settled none = false
  is_settled (some status) = not sends || not (status =s "queued")

  abbrev Settled : String → String → String → Outbox → Type 0
  Settled k u ch o = is_settled (status_of k u ch o.rows) ≡ true

  settled_append :
      (k u ch : String) (rows new : List Notification) (found : Option String)
      → status_of k u ch rows ≡ found
      → is_settled found ≡ true
      → is_settled (status_of k u ch (rows ++ new)) ≡ true
  settled_append k u ch rows new none e h = absurd (ground arith)
  settled_append k u ch rows new (some s) e h = rw (status_of-append k u ch s rows new e) h

  insert_or-settled :
      (k u ch k' u' ch' status : String) (rows : List Notification) (found : Option String)
      → is_settled (status_of k u ch rows) ≡ true
      → is_settled (status_of k u ch (insert_or k' u' ch' status rows found)) ≡ true
  insert_or-settled k u ch k' u' ch' status rows (some found) h = h
  insert_or-settled k u ch k' u' ch' status rows none h =
      settled_append k u ch rows _ (status_of k u ch rows) refl h

  pub claim-settled :
      (k u ch k' u' ch' status : String) (rows : List Notification)
      → is_settled (status_of k u ch rows) ≡ true
      → is_settled (status_of k u ch (claim k' u' ch' status rows)) ≡ true
  unfolding claim
  claim-settled k u ch k' u' ch' status rows h =
      insert_or-settled k u ch k' u' ch' status rows (status_of k' u' ch' rows) h

  finished : (ok : Bool) → is_settled (some (if ok then "sent" else "failed")) ≡ true
  finished true = ground arith
  finished false = ground arith

  finish_row-settled :
      (k' u' ch' : String) (ok : Bool) (n : Notification)
      → is_settled (some n.status) ≡ true
      → is_settled (some (finish_row k' u' ch' ok n).status) ≡ true
  finish_row-settled k' u' ch' ok n h = elim (Bool-cases (is_row k' u' ch' n)) [
    | inl b ↦ rw b (finished ok)
    | inr b ↦ rw b h
  ]

  pub finish-settled :
      (k u ch k' u' ch' : String) (ok : Bool) (rows : List Notification)
      → is_settled (status_of k u ch rows) ≡ true
      → is_settled (status_of k u ch (finish k' u' ch' ok rows)) ≡ true
  unfolding finish status_of
  finish-settled k u ch k' u' ch' ok [] h = h
  finish-settled k u ch k' u' ch' ok (n ∷ ns) h = elim (Bool-cases (is_row k u ch n)) [
    | inl b ↦
        rw (status_of, finish_row-is_row k u ch k' u' ch' ok n, b)
          (finish_row-settled k' u' ch' ok n (rw (status_of, b) at h))
    | inr b ↦
        rw (status_of, finish_row-is_row k u ch k' u' ch' ok n, b)
          (finish-settled k u ch k' u' ch' ok ns (rw (status_of, b) at h))
  ]

  -- finishing a row that is there settles it
  pub finish-settles :
      (k u ch : String) (ok : Bool) (rows : List Notification)
      → is_queued (status_of k u ch rows) ≡ true
      → is_settled (status_of k u ch (finish k u ch ok rows)) ≡ true
  unfolding finish status_of
  finish-settles k u ch ok [] h = absurd (ground arith)
  finish-settles k u ch ok (n ∷ ns) h = elim (Bool-cases (is_row k u ch n)) [
    | inl b ↦ rw (status_of, finish_row-is_row k u ch k u ch ok n, b) (finished ok)
    | inr b ↦
        rw (status_of, finish_row-is_row k u ch k u ch ok n, b)
          (finish-settles k u ch ok ns (rw (status_of, b) at h))
  ]

insert_or-found :
    (k u ch status : String) (rows : List Notification) (found : Option String)
    → status_of k u ch rows ≡ found
    → (s : String) × (status_of k u ch (insert_or k u ch status rows found) ≡ some s)
insert_or-found k u ch status rows none e = (status, status_of-new k u ch status rows e)
insert_or-found k u ch status rows (some s) e = (s, e)

pub claim-found :
    (k u ch status : String) (rows : List Notification)
    → (s : String) × (status_of k u ch (claim k u ch status rows) ≡ some s)
unfolding claim
claim-found k u ch status rows = insert_or-found k u ch status rows (status_of k u ch rows) refl

pub claim-again :
    (k u ch status s : String) (rows : List Notification)
    → status_of k u ch rows ≡ some s
    → claim k u ch status rows ≡ rows
unfolding claim
claim-again k u ch status s rows e = rw e refl

pub settled_found :
    (sends : Bool) (found : Option String)
    → is_settled sends found ≡ true
    → (s : String) × (found ≡ some s)
settled_found sends none h = absurd (ground arith)
settled_found sends (some s) h = (s, refl)

pub settled_idle :
    (sends : Bool) (found : Option String)
    → is_settled sends found ≡ true
    → (sends && is_queued found) ≡ false
settled_idle sends none h = ground arith
settled_idle sends (some s) h = ground arith

pub idle_settled :
    (sends : Bool) (found : Option String) (s : String)
    → found ≡ some s
    → (sends && is_queued found) ≡ false
    → is_settled sends found ≡ true
idle_settled sends none s e h = absurd (ground arith)
idle_settled sends (some t) s e h = ground arith
