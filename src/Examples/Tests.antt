-- ===== src/Examples/Tests.antt =====
-- The example programs on concrete messages.
use notyetanotherenvoybacken.Common.{
  Option, Error, returned, blocked, ℕ_discrete, String, false, ◌≡◌, refl, none, some, List, [], ◌∷◌,
  ◌++◌, map, external, ok, err, string_dec, join, insert, erase,
}
use notyetanotherenvoybacken.Address.Samples.{api, resource}
use notyetanotherenvoybacken.Debug.{
  new_debug_store, notify, send, unmarshalled, store_all, delete_all, update_store, remove_store,
  update_addresses, remove_addresses, update_kinds,
}
use notyetanotherenvoybacken.Client.Stream.{received}
use notyetanotherenvoybacken.Examples.Gui.{
  Item, TeaMsg, window_size, activity, key, other, Library, Model, is_quit_key, view_model,
  run_model, update_model, insert_message, resize_model, pass_on, press, show_selected,
  colorize_json,
}
use notyetanotherenvoybacken.Examples.Feed.{
  Feed, offer, offer_all, Codec, new_feed, shown_addresses, shown_resources, take_address,
  take_resource, forward, remove_json, removed_value, join_messages, json_messages,
}
use notyetanotherenvoybacken.Examples.Programs.{World, dump_main}
use notyetanotherenvoybacken.Examples.Shown.{
  delivered, AllShown, addresses_update, addresses_removal, resources_update, Call, message_of,
  shown, calls,
}
use notyetanotherenvoybacken.Examples.Screen.{KeepsItems, activities, listed, screen_shows}
use notyetanotherenvoybacken.Examples.Runs.{Answers, IsUnwatched, dump_main-Answers}

-- a list that is its items, and a viewport that is its text
abbrev library : Library (List Item) String String
library = record {
  items = λ l. l;
  insert_item = λ l n i. l ++ (i ∷ []);
  set_size = λ l w h. l;
  selected_item = λ l. elim l [ [] ↦ none | i ∷ rest ↦ some i ];
  update_list = λ l msg. (l, "list");
  view_list = λ l. "list";
  resize = λ v w h. v;
  set_content = λ v text. text;
  update_viewport = λ v msg. (v, "viewport");
  view_viewport = λ v. v;
  frame_size = (4, 2);
  in_margin = λ s. s;
  join_horizontal = λ parts. join "|" parts;
  indent = λ s. ok s;
  highlight = λ s. s;
}

library-KeepsItems : KeepsItems library
library-KeepsItems = (λ l i. refl, λ l w h. refl, λ l msg. refl)

abbrev codec : Codec
codec = record {
  unmarshal_address = api.unmarshal;
  unmarshal_resource = λ body. err (external 2);
  marshal_address = λ a. ok "{}";
  marshal_resource = λ k. ok "{}";
  marshal_names = λ names. ok (join " " names);
  print_names = λ names. "";
}

abbrev client_calls : List Call
client_calls =
    addresses_update (resource "pod" ∷ resource "bad" ∷ resource "moved" ∷ [])
    ∷ resources_update (resource "route" ∷ [])
    ∷ addresses_removal ("pod" ∷ [])
    ∷ []

abbrev empty_screen : Model (List Item) String
empty_screen = record { list = []; viewport = ""; ready = false }

-- the messages of the calls, among others
abbrev met : List TeaMsg
met =
    window_size 120 40
    ∷ activity "10:00:00" (message_of ("UPDATE - Address", "[{},{}]"))
    ∷ key "down"
    ∷ activity "10:00:01" (message_of ("UPDATE - Resource", "[]"))
    ∷ other "tick"
    ∷ activity "10:00:02" (message_of ("REMOVE - Address", "pod"))
    ∷ []

met_sent : activities met ≡ delivered codec client_calls (new_feed 4)
unfolding new_feed shown_addresses shown_resources update_addresses remove_addresses update_kinds
    update_store remove_store send unmarshalled store_all delete_all take_address take_resource
    forward remove_json removed_value join_messages json_messages insert erase join is_quit_key
    notify new_debug_store offer offer_all string_dec
met_sent = refl

screen_shows_example :
    (x : List (Option Error) × Feed) × (calls codec client_calls (new_feed 4) ≡ returned x)
    × AllShown codec client_calls (new_feed 4) x
    × (listed library library-KeepsItems (run_model library met empty_screen).0
        ≡ listed library library-KeepsItems empty_screen
          ++ map (λ c. message_of (shown codec c)) client_calls)
unfolding new_feed notify new_debug_store run_model update_model pass_on press is_quit_key
    string_dec
screen_shows_example =
    screen_shows library library-KeepsItems codec client_calls (new_feed 4) met empty_screen
      (refl, refl, refl, refl) refl refl refl met_sent

-- a screen that does not wait again: the third call blocks behind the message that nobody takes
abbrev two_more : List Call
two_more = addresses_removal ("a" ∷ []) ∷ addresses_removal ("b" ∷ []) ∷ []

silent_screen : calls codec (addresses_removal ("pod" ∷ []) ∷ two_more) (new_feed 1) ≡ blocked
unfolding new_feed shown_addresses remove_addresses remove_store send delete_all take_address
    forward remove_json removed_value erase notify new_debug_store offer offer_all join string_dec
silent_screen = refl

-- the first message shows at once
first_view : view_model library (run_model library met empty_screen).0 ≡ "list|[{},{}]"
unfolding view_model run_model update_model insert_message resize_model pass_on press show_selected
    colorize_json is_quit_key join string_dec ℕ_discrete
first_view = refl

abbrev world : World
world = record {
  endpoint = "127.0.0.1:9978";
  namespace = "agentgateway-system";
  gateway_name = "agentgateway";
  token_file = ok " token ";
  dialer = record {
    split_host_port = λ a. none;
    new_struct = λ d. none;
    new_client = λ a. none;
    int_n = λ n. 0;
  };
  verdicts = record { status_code = λ e. none; is_context_error = λ e. false };
  codec = codec;
  rounds =
      record {
        before = none;
        during_delay = none;
        connection = record {
          opening = none;
          send = λ n. none;
          turns =
              received (record {
                type_url = "type.googleapis.com/istio.workload.Address";
                nonce = "1";
                resources = resource "pod" ∷ [];
                removed_resources = "moved" ∷ [];
              })
              ∷ [];
          visits = λ keys. keys;
        };
        after = none;
      }
      ∷ [];
}

dump_main-Answers_example : Answers IsUnwatched (dump_main world)
dump_main-Answers_example = dump_main-Answers world
