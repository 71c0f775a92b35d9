-- ===== src/Orchestrator/Posting.antt =====
-- `post_message` and `_replay` of application/services/conversation_service.py of
-- apps/analytics-orchestrator, over the runs of one tenant. Messages stand with their runs. A run
-- that cannot be enqueued is ended by `_end_without_execution`; here its status is set.
use bu_vi.Base.{
  String, Bool, true, false, not, ◌&&◌, Option, none, some, List, [], ◌∷◌, ◌++◌, if◌then◌else◌,
  ◌=s◌, Result, ok, err,
}

-- A `Run` with what it keeps of the request: `content` is the user's message and `data_source_id`
-- that of its flow state.
pub record PostedRun : Type 0 where
  pub id : String
  pub conversation_id : String
  pub requested_by : String
  pub content : String
  pub data_source_id : Option String
  pub idempotency_key : Option String
  pub status : String

-- What a user posts.
pub record Post : Type 0 where
  pub user_id : String
  pub conversation_id : String
  pub content : String
  pub data_source_id : Option String
  pub idempotency_key : Option String

pub data PostError : Type 0 where
  not_found idempotency_key_reused queue_unavailable : PostError

pub record AcceptedRun : Type 0 where
  pub run : PostedRun
  pub replayed : Bool

abbrev pub same_option : Option String → Option String → Bool
same_option none none = true
same_option none (some b) = false
same_option (some a) none = false
same_option (some a) (some b) = a =s b

abbrev pub has_key : String → PostedRun → Bool
has_key key run = elim run.idempotency_key [ none ↦ false | some k ↦ k =s key ]

-- `get_run_by_idempotency_key`
unfoldable pub get_run_by_idempotency_key : String → List PostedRun → Option PostedRun
get_run_by_idempotency_key key [] = none
get_run_by_idempotency_key key (r ∷ rs) =
    let rest = get_run_by_idempotency_key key rs in if has_key key r then some r else rest

-- the comparison of `_replay`
unfoldable pub is_same : Post → PostedRun → Bool
is_same post run =
    run.conversation_id =s post.conversation_id
    && (run.requested_by =s post.user_id
        && (run.content =s post.content && same_option run.data_source_id post.data_source_id))

-- `_replay`, and what comes where it finds no run
abbrev pub replay_or :
    Post
    → List PostedRun
    → Option PostedRun
    → Result PostError AcceptedRun × List PostedRun
    → Result PostError AcceptedRun × List PostedRun
replay_or post runs none rest = rest
replay_or post runs (some existing) rest =
    if is_same post existing
    then (ok (record { run = existing; replayed = true }), runs)
    else (err idempotency_key_reused, runs)

abbrev pub find_run : Option String → List PostedRun → Option PostedRun
find_run none runs = none
find_run (some key) runs = get_run_by_idempotency_key key runs

abbrev pub new_run : String → Post → PostedRun
new_run id post = record {
  id = id;
  conversation_id = post.conversation_id;
  requested_by = post.user_id;
  content = post.content;
  data_source_id = post.data_source_id;
  idempotency_key = post.idempotency_key;
  status = "queued";
}

abbrev pub enqueued :
    Bool → PostedRun → List PostedRun → Result PostError AcceptedRun × List PostedRun
enqueued true run runs = (ok (record { run = run; replayed = false }), runs ++ run ∷ [])
enqueued false run runs = (err queue_unavailable, runs ++ record run { status = "failed" } ∷ [])

-- `post_message`; an empty key counts as none. `meanwhile` are the runs that other requests add
-- between the first look for the key and the insertion, which the unique constraint refuses if one
-- has the key.
unfoldable pub post_message :
    Bool
    → Bool
    → String
    → List PostedRun
    → Post
    → List PostedRun
    → Result PostError AcceptedRun × List PostedRun
post_message has_conversation queue_up id meanwhile post runs =
    let later = runs ++ meanwhile in
    if not has_conversation
    then (err not_found, runs)
    else replay_or post runs (find_run post.idempotency_key runs) (
        replay_or post later (find_run post.idempotency_key later)
          (enqueued queue_up (new_run id post) later))
