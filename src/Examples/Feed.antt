-- ===== src/Examples/Feed.antt =====
-- examples/adsgui/main.go: what the debug stores pass on, on its way to the screen; and `main`.
use notyetanotherenvoybacken.Common.{
  ℕ, zero, suc, Bool, true, false, none, String, true, Option, some, List, [], ◌∷◌, ◌++◌, map,
  Error, Result, ok, err, Outcome, returned, ◌>>=◌, join, sprintf,
}
use notyetanotherenvoybacken.Address.State.{AddressMessage}
use notyetanotherenvoybacken.Resource.Removals.{Kind}
use notyetanotherenvoybacken.Debug.{
  NotifyMsg, update_msg, remove_msg, DebugStore, new_debug_store, notify, update_addresses,
  remove_addresses, update_kinds, remove_kinds,
}
use notyetanotherenvoybacken.Client.Stream.{Handler, Handlers}
use notyetanotherenvoybacken.Examples.Gui.{Msg}

-- What the libraries answer: `anypb.UnmarshalTo` and `protojson.Marshal` of both types of messages,
-- `json.Marshal` of a list of texts, and the format `%+v` of one.
pub record Codec : Type 0 where
  pub unmarshal_address : String → Result AddressMessage
  pub unmarshal_resource : String → Result Kind
  pub marshal_address : AddressMessage → Result String
  pub marshal_resource : Kind → Result String
  pub marshal_names : List String → Result String
  pub print_names : List String → String

-- the value of `removeJSON`
unfoldable pub removed_value : Codec → List String → String
removed_value codec names = elim (codec.marshal_names names) [
  | err e ↦ codec.print_names names
  | ok text ↦ text
]

-- `removeJSON`
unfoldable pub remove_json : Codec → List String → String → Msg
unfolding removed_value
remove_json codec names res_type = record {
  operation = sprintf ("REMOVE - " ∷ res_type ∷ []);
  value = removed_value codec names;
}

-- the loop of `joinMessages`
unfoldable pub json_messages {ℓ} : {M : Type ℓ} → (M → Result String) → List M → List String
json_messages marshal [] = []
json_messages marshal (m ∷ rest) = elim (marshal m) [
  | err e ↦ json_messages marshal rest
  | ok text ↦ text ∷ json_messages marshal rest
]

-- `joinMessages`
unfoldable pub join_messages {ℓ} : {M : Type ℓ} → (M → Result String) → List M → String
unfolding json_messages
join_messages marshal msgs = sprintf ("[" ∷ join "," (json_messages marshal msgs) ∷ "]" ∷ [])

-- a case of the `select`: what is sent on for one message of a store
unfoldable pub forward {ℓ} : {M : Type ℓ} → Codec → (M → Result String) → String → NotifyMsg M → Msg
unfolding remove_json join_messages
forward codec marshal res_type (remove_msg names) = remove_json codec names res_type
forward codec marshal res_type (update_msg msgs) = record {
  operation = sprintf ("UPDATE - " ∷ res_type ∷ []);
  value = join_messages marshal msgs;
}

-- The debug stores; what the screen received from its channel, and how often it will still receive
-- from it in its run; and the message that the goroutine holds when the screen does not receive.
pub record Feed : Type 0 where
  pub addresses : DebugStore AddressMessage
  pub resources : DebugStore Kind
  pub output : List Msg
  pub receives : ℕ
  pub held : Option Msg

-- The goroutine is in its `select`, where it receives from both stores.
abbrev pub is_selecting : Option Msg → Bool
is_selecting none = true
is_selecting (some msg) = false

-- the goroutine's send on the channel of the screen, which has no buffer: the screen receives the
-- message, or the goroutine waits with it for ever
unfoldable pub offer : ℕ → Msg → Feed → Feed
offer zero msg f = record f { held = some msg }
offer (suc n) msg f = record f { output = f.output ++ (msg ∷ []); receives = n }

-- the same for the messages of a store
unfoldable pub offer_all : List Msg → Feed → Feed
unfolding offer
offer_all [] f = f
offer_all (msg ∷ msgs) f = offer_all msgs (offer f.receives msg f)

module _ (codec : Codec) where
  -- The goroutine takes what the address store sent, and sends it on before it receives again.
  unfoldable pub take_address : DebugStore AddressMessage → Feed → Feed
  unfolding forward offer_all
  take_address s f =
      offer_all (map (forward codec codec.marshal_address "Address") s.received)
        (record f { addresses = record s { received = [] } })

  unfoldable pub take_resource : DebugStore Kind → Feed → Feed
  unfolding forward offer_all
  take_resource s f =
      offer_all (map (forward codec codec.marshal_resource "Resource") s.received)
        (record f { resources = record s { received = [] } })

  -- a handler of the address store and the goroutine together
  abbrev pub then_address :
      Outcome (Option Error × DebugStore AddressMessage) → Feed → Outcome (Option Error × Feed)
  then_address o f = o >>= λ (e, s). returned (e, take_address s f)

  abbrev pub then_resource :
      Outcome (Option Error × DebugStore Kind) → Feed → Outcome (Option Error × Feed)
  then_resource o f = o >>= λ (e, s). returned (e, take_resource s f)

  -- the handlers, whose stores have a receiver while the goroutine is in its `select`
  unfoldable pub shown_addresses : Handler Feed
  unfolding update_addresses remove_addresses take_address
  shown_addresses = record {
    remove = λ names f. then_address (remove_addresses (is_selecting f.held) names f.addresses) f;
    update = λ rs f.
        then_address (update_addresses codec.unmarshal_address (is_selecting f.held) rs f.addresses)
          f;
  }

  unfoldable pub shown_resources : Handler Feed
  unfolding update_kinds remove_kinds take_resource
  shown_resources = record {
    remove = λ names f. then_resource (remove_kinds (is_selecting f.held) names f.resources) f;
    update = λ rs f.
        then_resource (update_kinds codec.unmarshal_resource (is_selecting f.held) rs f.resources)
          f;
  }

  -- `resourceHandlerStore`
  unfoldable pub shown_handlers : Handlers Feed
  unfolding shown_addresses shown_resources
  shown_handlers =
      ("type.googleapis.com/istio.workload.Address", some shown_addresses)
      ∷ ("type.googleapis.com/agentgateway.dev.resource.Resource", some shown_resources)
      ∷ []

-- the stores of `main`, both with a receiver, where the screen receives this often
unfoldable pub new_feed : ℕ → Feed
unfolding new_debug_store notify
new_feed n = record {
  addresses = notify new_debug_store;
  resources = notify new_debug_store;
  output = [];
  receives = n;
  held = none;
}
