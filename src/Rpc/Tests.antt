-- ===== src/Rpc/Tests.antt =====
-- Remote procedure calls of src/connection.cpp over a small JSON library, and the theorems at them.
-- The callback for an answer starts another call, or throws.
use metricq_cpp.Prelude.{
  ℕ, ◌≡◌, ◌≢◌, refl, Bool, true, false, [], ◌∷◌, ◌++◌, some, none, String, ◌⊎◌, ◌∙◌, append-nil,
}
use metricq_cpp.Prelude.Int.{ℤ, pos, quot_ℤ}
use metricq_cpp.Prelude.Outcome.{
  ok, err, dangling, runtime_error, parse_error, type_error, rpc_error, Action,
}
use metricq_cpp.Json.Tree.{Tree, text, object, field, end}
use metricq_cpp.Json.Sample.{sample}
use metricq_cpp.Rpc.{
  Message, Event, published, acked, closing, Guard, Connection, Client, emit, disarm, rpc,
  correlation_id_of, handle_management_message, wait_over,
}
use metricq_cpp.Table.{lookup, contains, update, erase, insert_new}
use metricq_cpp.Rpc.Acknowledge.{
  acks, acks-append, IsQuiet, AcksNothing, handle_management_message-acks,
}
use metricq_cpp.Rpc.Respond.{response-erased, response_error-closes}
use metricq_cpp.Rpc.Keeps.{Keeps, itself}
use metricq_cpp.Timer.{success, operation_aborted}
use metricq_cpp.Rpc.Timeouts.{AreArmed, nobody, calls, here, Reach-times_out}
use metricq_cpp.Rpc.Register.{rpc-answered}

-- A callback for an answer: `true` notes the answer, `false` throws.
abbrev note : Event
note =
    published "" "log"
      (record { payload = ""; correlation_id = ""; app_id = ""; content_type = ""; reply_to = "" })

abbrev on_response : Bool → Tree → Action (Connection Bool ℕ) (Unit {0})
on_response true content c = (ok tt, emit note c)
on_response false content c = (err type_error, c)

abbrev client : Client sample Bool ℕ
client = record { on_response = on_response; on_call = λ f content c. (ok (text "yes"), c) }

abbrev fresh : Connection Bool ℕ
fresh = record {
  token = "me";
  client_queue = "me-rpc";
  connected = true;
  rpc_callbacks = ("function", 7) ∷ [];
  rpc_response_callbacks = [];
  events = [];
}

abbrev second : ℤ
second = pos 1000000000

abbrev id : String
id = correlation_id_of "me" "1"

abbrev waiting : Bool → Guard Bool
waiting b = record { callback = b; armed = true }

abbrev calling : Bool → Connection Bool ℕ
calling b = record fresh {
  rpc_response_callbacks = (id, waiting b) ∷ [];
  events =
      published "metricq.management" "config" (record {
        payload = "{}";
        correlation_id = id;
        app_id = "me";
        content_type = "application/json";
        reply_to = "me-rpc";
      })
      ∷ [];
}

abbrev message : String → Message
message body = record { body = body; correlation_id = id; reply_to = "them" }

abbrev content : String → Tree
content s = object (field s (text s) end)

client-AcksNothing : AcksNothing client
client-AcksNothing = record {
  response_quiet = response;
  call_quiet = λ f v. record { quiet = λ c. refl };
}
  where
    response : (r : Bool) (v : Tree) → IsQuiet (on_response r v)
    response true v = record {
      quiet = λ c. acks-append c.events (note ∷ []) ∙ append-nil (acks c.events);
    }
    response false v = record { quiet = λ c. refl }

-- A callback that throws keeps its entry in the map, but no timeout watches it any more.
throwing : handle_management_message sample client (message "result") 4 (calling false) ≡ (
  err rpc_error,
  record (calling false) {
    rpc_response_callbacks = (id, record { callback = false; armed = false }) ∷ [];
    events = (calling false).events ++ acked 4 ∷ [];
  },
)
unfolding handle_management_message lookup update
throwing = refl

rpc-calling : (b : Bool) → rpc sample "config" b (object end) second "1" fresh ≡ (ok tt, calling b)
unfolding rpc contains insert_new quot_ℤ
rpc-calling b = refl

handle_management_message-acks_example :
    let (r, c') = handle_management_message sample client (message "result") 4 (calling false) in
    ((content : Tree) × (sample.parse "result" ≡ some content)
      × (acks c'.events ≡ acks (calling false).events ++ 4 ∷ []))
    ⊎ ((sample.parse "result" ≡ none) × (r ≡ err parse_error) × (c' ≡ calling false))
handle_management_message-acks_example =
    handle_management_message-acks client-AcksNothing (message "result") 4 (calling false)

abbrev answered : Connection Bool ℕ
answered = record (calling true) {
  rpc_response_callbacks = [];
  events = (calling true).events ++ note ∷ acked 4 ∷ [];
}

handle-answered :
    handle_management_message sample client (message "result") 4 (calling true) ≡ (ok tt, answered)
unfolding handle_management_message lookup update contains erase
handle-answered = refl

response-erased_example :
    (c₁ : Connection Bool ℕ) × (on_response true
        (content "result")
        (disarm sample client id (waiting true) (calling true))
      ≡ (ok tt, c₁))
    × (answered.events ≡ c₁.events ++ acked 4 ∷ [])
    × (lookup id answered.rpc_response_callbacks ≡ none)
    × ((k : String)
        → id ≢ k
        → lookup k answered.rpc_response_callbacks ≡ lookup k c₁.rpc_response_callbacks)
unfolding lookup
response-erased_example =
    response-erased client (message "result") 4 (calling true) answered (content "result")
      (waiting true) refl refl refl handle-answered

response_error-closes_example :
    handle_management_message sample client (message "error") 4 (calling true) ≡ (
      ok tt,
      record (calling true) {
        rpc_response_callbacks = [];
        events = (calling true).events ++ acked 4 ∷ closing ∷ [];
      },
    )
unfolding lookup
response_error-closes_example =
    response_error-closes client (message "error") 4 (calling true) (content "error") (text "error")
      "error" (waiting true) refl refl refl refl refl

rpc-answered_example :
    (c₁ : Connection Bool ℕ) × (on_response true
        (content "result")
        (disarm sample client id (waiting true) (calling true))
      ≡ (ok tt, c₁))
    × (lookup id answered.rpc_response_callbacks ≡ none)
rpc-answered_example =
    rpc-answered client "config" true (object end) second "1" fresh (calling true) answered
      (message "result") 4 (content "result") (rpc-calling true) refl refl refl handle-answered

on_response-Keeps :
    (exempt : String → Bool) (callback : Bool) (answer : Tree)
    → Keeps itself (AreArmed exempt) (client.on_response callback answer)
on_response-Keeps exempt true answer = record { keeps = λ c h. h }
on_response-Keeps exempt false answer = record { keeps = λ c h. h }

on_call-Keeps :
    (exempt : String → Bool) (callback : ℕ) (call : Tree)
    → Keeps itself (AreArmed exempt) (client.on_call callback call)
on_call-Keeps exempt callback call = record { keeps = λ c h. h }

fresh-AreArmed : AreArmed nobody fresh
unfolding lookup
fresh-AreArmed id guard l e = absurd (cc)

-- The call has been sent, and is not answered.
Reach-times_out_example :
    (wait_over sample client operation_aborted id (calling true) ≡ (ok tt, calling true))
    × (((guard : Guard Bool) × (lookup id (calling true).rpc_response_callbacks ≡ some guard)
          × (guard.armed ≡ true)
          × (wait_over sample client success id (calling true)
              ≡ (err (runtime_error "Timeout during RPC"), calling true)))
        ⊎ ((lookup id (calling true).rpc_response_callbacks ≡ none)
            × (wait_over sample client success id (calling true) ≡ (err dangling, calling true))))
Reach-times_out_example =
    Reach-times_out client on_response-Keeps on_call-Keeps fresh (calling true) id success
      (calls "config" true (object end) second "1" here (rpc-calling true)) fresh-AreArmed (λ e. cc)
