-- ===== src/Orchestrator/Replaying.antt =====
-- A question that is posted twice with one key.
use bu_vi.Base.{
  sym, ◌≡◌, refl, String, Bool, true, false, Option, none, some, List, [], ◌∷◌, ◌++◌, arith,
  if◌then◌else◌, =s_iff, Result, ok, err, Bool-cases, inl, inr, ap, ◌∙◌, sym,
}
use bu_vi.Orchestrator.Posting.{
  PostedRun, Post, PostError, idempotency_key_reused, AcceptedRun, same_option, has_key,
  get_run_by_idempotency_key, is_same, replay_or, find_run, new_run, enqueued, post_message,
}

same_option_refl : (o : Option String) → same_option o o ≡ true
same_option_refl none = refl
same_option_refl (some a) = (=s_iff a a).1 refl

new_run-is_same : (id : String) (post : Post) → is_same post (new_run id post) ≡ true
unfolding is_same
new_run-is_same id post = ground (
  arith,
  (=s_iff post.conversation_id post.conversation_id).1 refl,
  (=s_iff post.user_id post.user_id).1 refl,
  (=s_iff post.content post.content).1 refl,
  same_option_refl post.data_source_id,
)

get_run-append :
    (key : String) (runs : List PostedRun) (new : PostedRun)
    → get_run_by_idempotency_key key runs ≡ none
    → has_key key new ≡ true
    → get_run_by_idempotency_key key (runs ++ new ∷ []) ≡ some new
unfolding get_run_by_idempotency_key
get_run-append key [] new e h = rw h refl
get_run-append key (r ∷ rs) new e h = elim (Bool-cases (has_key key r)) [
  | inl b ↦ absurd (ground (arith, rw (b, get_run_by_idempotency_key) at e))
  | inr b ↦
      rw (b, get_run_by_idempotency_key)
        (get_run-append key rs new (rw (b, get_run_by_idempotency_key) at e) h)
]

-- The accepted run is the one that the key finds, and it is the post's.
abbrev Found : String → Post → Result PostError AcceptedRun × List PostedRun → Type 0
Found key post (err e, runs) = Unit
Found key post (ok a, runs) =
    (get_run_by_idempotency_key key runs ≡ some a.run) × (is_same post a.run ≡ true)

same_or_reused :
    (key : String) (post : Post) (run : PostedRun) (runs : List PostedRun) (b : Bool)
    → get_run_by_idempotency_key key runs ≡ some run
    → is_same post run ≡ b
    → Found key post (
        if b
        then (ok (record { run = run; replayed = true }), runs)
        else (err idempotency_key_reused, runs))
same_or_reused key post run runs true e h = (e, h)
same_or_reused key post run runs false e h = tt

replay_or-Found :
    (key : String) (post : Post) (runs : List PostedRun) (found : Option PostedRun)
    (rest : Result PostError AcceptedRun × List PostedRun)
    → get_run_by_idempotency_key key runs ≡ found
    → (found ≡ none → Found key post rest)
    → Found key post (replay_or post runs found rest)
replay_or-Found key post runs none rest e h = h refl
replay_or-Found key post runs (some run) rest e h =
    same_or_reused key post run runs (is_same post run) e refl

enqueued-Found :
    (key id : String) (post : Post) (runs : List PostedRun) (queue_up : Bool)
    → post.idempotency_key ≡ some key
    → get_run_by_idempotency_key key runs ≡ none
    → Found key post (enqueued queue_up (new_run id post) runs)
enqueued-Found key id post runs false k e = tt
enqueued-Found key id post runs true k e = (
  get_run-append key runs (new_run id post) e (rw k ((=s_iff key key).1 refl)),
  new_run-is_same id post,
)

post_message-Found :
    (key id : String) (queue_up : Bool) (meanwhile : List PostedRun) (post : Post)
    (runs : List PostedRun)
    → post.idempotency_key ≡ some key
    → Found key post (post_message true queue_up id meanwhile post runs)
unfolding post_message
post_message-Found key id queue_up meanwhile post runs k =
    let later = runs ++ meanwhile in
    let found = ap (λ o. find_run o runs) (sym k) in
    let found' = ap (λ o. find_run o later) (sym k) in
    replay_or-Found key post runs (find_run post.idempotency_key runs)
      (replay_or post later (find_run post.idempotency_key later)
        (enqueued queue_up (new_run id post) later))
      found
      (λ e.
        replay_or-Found key post later (find_run post.idempotency_key later)
          (enqueued queue_up (new_run id post) later) found'
          (λ e'. enqueued-Found key id post later queue_up k (found' ∙ e')))

Found-ok :
    (key : String) (post : Post) (out : Result PostError AcceptedRun × List PostedRun)
    (a : AcceptedRun)
    → Found key post out
    → out.0 ≡ ok a
    → (get_run_by_idempotency_key key out.1 ≡ some a.run) × (is_same post a.run ≡ true)
Found-ok key post (err e, runs) a h o = absurd (ground arith)
Found-ok key post (ok b, runs) a h o =
    let s : b ≡ a = ground arith in
    (
      h.0 ∙ ap (λ x. some (AcceptedRun.run x)) s,
      ap (λ x. is_same post (AcceptedRun.run x)) (sym s) ∙ h.1,
    )

replayed_again :
    (key id : String) (queue_up : Bool) (meanwhile : List PostedRun) (post : Post)
    (runs : List PostedRun) (run : PostedRun)
    → post.idempotency_key ≡ some key
    → get_run_by_idempotency_key key runs ≡ some run
    → is_same post run ≡ true
    → post_message true queue_up id meanwhile post runs
      ≡ (ok (record { run = run; replayed = true }), runs)
unfolding post_message is_same
replayed_again key id queue_up meanwhile post runs run k found same = rw (k, found, same) refl

-- A post with an idempotency key that was accepted is accepted again, with the same run, if it is
-- posted again while its run is as it was: no run is added, whatever runs other requests add
-- while it is handled, and whether or not the queue is up.
pub post_message-post_message :
    (key : String) (first second : String) (queue_up queue_up' : Bool)
    (meanwhile meanwhile' : List PostedRun) (post : Post) (runs : List PostedRun) (a : AcceptedRun)
    → post.idempotency_key ≡ some key
    → (post_message true queue_up first meanwhile post runs).0 ≡ ok a
    → post_message true queue_up' second meanwhile' post
        (post_message true queue_up first meanwhile post runs).1
      ≡ (
        ok (record { run = a.run; replayed = true }),
        (post_message true queue_up first meanwhile post runs).1,
      )
post_message-post_message key first second queue_up queue_up' meanwhile meanwhile' post runs a k o =
    let out = post_message true queue_up first meanwhile post runs in
    let (found, same) =
      Found-ok key post out a (post_message-Found key first queue_up meanwhile post runs k) o in
    replayed_again key second queue_up' meanwhile' post out.1 a.run k found same
