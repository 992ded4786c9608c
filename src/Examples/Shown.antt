-- ===== src/Examples/Shown.antt =====
-- examples/adsgui/main.go: what the list on the screen shows of what the client receives.
use mathlib.Core.List.{append-nil, append_assoc}
use notyetanotherenvoybacken.Common.{
  some, length-snoc, ℕ, zero, suc, ◌+◌, ◌≤◌, ◌<◌, length, arith, panicked, blocked, String, true,
  Option, none, List, [], ◌∷◌, Dict, ◌++◌, map, ◌≡◌, refl, sym, ap, ◌∙◌, Error, Result, ok, err,
  Outcome, returned, ◌>>=◌, join, sprintf, Result-cases, inl, inr,
}
use notyetanotherenvoybacken.Address.State.{Resource, AddressMessage}
use notyetanotherenvoybacken.Resource.Removals.{Kind}
use notyetanotherenvoybacken.Debug.{
  NotifyMsg, update_msg, send, unmarshalled, update_store, remove_store, update_addresses,
  remove_addresses, update_kinds, remove_kinds,
}
use notyetanotherenvoybacken.Examples.Gui.{Msg}
use notyetanotherenvoybacken.Examples.Feed.{
  Codec, remove_json, removed_value, json_messages, join_messages, forward, Feed, offer, offer_all,
  is_selecting, take_address, take_resource, then_address, then_resource, shown_addresses,
  shown_resources,
}

-- A call of a handler by the client.
pub data Call : Type 0 where
  addresses_update : List Resource → Call
  addresses_removal : List String → Call
  resources_update : List Resource → Call
  resources_removal : List String → Call

-- The JSON of the resources of a response, less those that do not unmarshal or marshal.
abbrev pub json_texts {ℓ} :
    {M : Type ℓ} → (String → Result M) → (M → Result String) → List Resource → List String
json_texts unmarshal marshal [] = []
json_texts unmarshal marshal (res ∷ rest) = elim (unmarshal res.body) [
  | err e ↦ json_texts unmarshal marshal rest
  | ok m ↦ elim (marshal m) [
    | err e ↦ json_texts unmarshal marshal rest
    | ok text ↦ text ∷ json_texts unmarshal marshal rest
  ]
]

json_messages-unmarshalled {ℓ} :
    {M : Type ℓ} (unmarshal : String → Result M) (marshal : M → Result String) (rs : List Resource)
    → json_messages marshal (unmarshalled unmarshal rs) ≡ json_texts unmarshal marshal rs
unfolding json_messages unmarshalled
json_messages-unmarshalled unmarshal marshal [] = refl
json_messages-unmarshalled unmarshal marshal (res ∷ rest) =
    elim (Result-cases (unmarshal res.body)) [
      | inr (e, n) ↦
          rw (n, unmarshalled, json_texts) (json_messages-unmarshalled unmarshal marshal rest)
      | inl (m, n) ↦ elim (Result-cases (marshal m)) [
        | inr (e, k) ↦
            rw (n, unmarshalled, json_texts, json_messages, k)
              (json_messages-unmarshalled unmarshal marshal rest)
        | inl (t, k) ↦
            rw (n, unmarshalled, json_texts, json_messages, k)
              (ap (λ l. t ∷ l) (json_messages-unmarshalled unmarshal marshal rest))
      ]
    ]

-- the message of an operation and a value
abbrev pub message_of : String × String → Msg
message_of (title, body) = record { operation = title; value = body }

-- Both stores have a receiver, and nothing waits in their channels.
abbrev pub IsWatched : Feed → Type 0
IsWatched f =
    (f.addresses.want_notify ≡ true)
    × (f.addresses.received ≡ [])
    × (f.resources.want_notify ≡ true)
    × (f.resources.received ≡ [])

-- The same, and neither the screen nor the goroutine received anything since.
abbrev pub SameFeed : Feed → Feed → Type 0
SameFeed f t = IsWatched t × (t.output ≡ f.output) × (t.receives ≡ f.receives) × (t.held ≡ f.held)

module _ (codec : Codec) where
  abbrev pub call : Call → Feed → Outcome (Option Error × Feed)
  call (addresses_update rs) = (shown_addresses codec).update rs
  call (addresses_removal names) = (shown_addresses codec).remove names
  call (resources_update rs) = (shown_resources codec).update rs
  call (resources_removal names) = (shown_resources codec).remove names

  -- What a call shows: the operation and the type, and the JSON of what was updated or removed.
  abbrev pub shown : Call → String × String
  shown (addresses_update rs) = (
    "UPDATE - Address",
    sprintf
        ("[" ∷ join "," (json_texts codec.unmarshal_address codec.marshal_address rs) ∷ "]" ∷ []),
  )
  shown (addresses_removal names) = ("REMOVE - Address", removed_value codec names)
  shown (resources_update rs) = (
    "UPDATE - Resource",
    sprintf
        ("[" ∷ join "," (json_texts codec.unmarshal_resource codec.marshal_resource rs) ∷ "]" ∷ []),
  )
  shown (resources_removal names) = ("REMOVE - Resource", removed_value codec names)

  -- what a send leaves, after the goroutine took the message and offered it to the screen
  address-offers :
      (content : Dict AddressMessage) (msg : NotifyMsg AddressMessage) (f : Feed)
      → IsWatched f
      → f.held ≡ none
      → (t : Feed) × (then_address codec
            (send (is_selecting f.held) msg (record f.addresses { content = content }))
            f
          ≡ returned (none, offer f.receives (forward codec codec.marshal_address "Address" msg) t))
        × SameFeed f t
  unfolding send take_address offer_all
  address-offers content msg f (w, x, y, z) free = (
    record f { addresses = record f.addresses { content = content; received = [] } },
    rw (w, free, x) refl,
    ((w, refl, y, z), refl, refl, refl),
  )

  resource-offers :
      (content : Dict Kind) (msg : NotifyMsg Kind) (f : Feed)
      → IsWatched f
      → f.held ≡ none
      → (t : Feed) × (then_resource codec
            (send (is_selecting f.held) msg (record f.resources { content = content }))
            f
          ≡ returned
              (none, offer f.receives (forward codec codec.marshal_resource "Resource" msg) t))
        × SameFeed f t
  unfolding send take_resource offer_all
  resource-offers content msg f (w, x, y, z) free = (
    record f { resources = record f.resources { content = content; received = [] } },
    rw (y, free, z) refl,
    ((w, x, y, refl), refl, refl, refl),
  )

  forward-update {ℓ} :
      {M : Type ℓ} (unmarshal : String → Result M) (marshal : M → Result String) (res_type : String)
      (rs : List Resource)
      → forward codec marshal res_type (update_msg (unmarshalled unmarshal rs))
        ≡ message_of (
          sprintf ("UPDATE - " ∷ res_type ∷ []),
          sprintf ("[" ∷ join "," (json_texts unmarshal marshal rs) ∷ "]" ∷ []),
        )
  unfolding forward join_messages
  forward-update unmarshal marshal res_type rs =
      rw (json_messages-unmarshalled unmarshal marshal rs) refl

  call-offers :
      (c : Call) (f : Feed)
      → IsWatched f
      → f.held ≡ none
      → (t : Feed) × (call c f ≡ returned (none, offer f.receives (message_of (shown c)) t))
        × SameFeed f t
  unfolding shown_addresses shown_resources update_addresses remove_addresses update_kinds
      remove_kinds update_store remove_store forward remove_json
  call-offers (addresses_update rs) f p free =
      let (t, e, q) = address-offers _ _ f p free in
      let u = forward-update codec.unmarshal_address codec.marshal_address "Address" rs in
      (t, e ∙ ap (λ m. returned (none, offer f.receives m t)) u, q)
  call-offers (addresses_removal names) f p free = address-offers _ _ f p free
  call-offers (resources_update rs) f p free =
      let (t, e, q) = resource-offers _ _ f p free in
      let u = forward-update codec.unmarshal_resource codec.marshal_resource "Resource" rs in
      (t, e ∙ ap (λ m. returned (none, offer f.receives m t)) u, q)
  call-offers (resources_removal names) f p free = resource-offers _ _ f p free

  -- While the goroutine holds a message, every call blocks.
  call-blocks :
      (c : Call) (f : Feed) (msg : Msg) → IsWatched f → f.held ≡ some msg → call c f ≡ blocked
  unfolding shown_addresses shown_resources update_addresses remove_addresses update_kinds
      remove_kinds update_store remove_store send
  call-blocks (addresses_update rs) f msg (w, x, y, z) h = rw (w, h) refl
  call-blocks (addresses_removal names) f msg (w, x, y, z) h = rw (w, h) refl
  call-blocks (resources_update rs) f msg (w, x, y, z) h = rw (y, h) refl
  call-blocks (resources_removal names) f msg (w, x, y, z) h = rw (y, h) refl

  abbrev pub note_error : Option Error → List (Option Error) × Feed → List (Option Error) × Feed
  note_error e (es, f) = (e ∷ es, f)

  -- the calls one after the other, with what each returned
  abbrev pub calls : List Call → Feed → Outcome (List (Option Error) × Feed)
  calls [] f = returned ([], f)
  calls (c ∷ rest) f = call c f >>= λ (e, t). calls rest t >>= λ x. returned (note_error e x)

  -- what the screen has received when no more of the calls returns
  abbrev pub delivered : List Call → Feed → List Msg
  delivered [] f = f.output
  delivered (c ∷ rest) f = elim (call c f) [
    | returned x ↦ delivered rest x.1
    | panicked ↦ f.output
    | blocked ↦ f.output
  ]

  -- All calls returned without an error, and the screen has one message for each, after those that
  -- it had.
  abbrev pub AllShown : List Call → Feed → List (Option Error) × Feed → Type 0
  AllShown cs f (es, t) =
      (es ≡ map (λ c. none) cs) × (t.output ≡ f.output ++ map (λ c. message_of (shown c)) cs)

  -- one call that the screen receives
  call-shows :
      (c : Call) (f : Feed) (n : ℕ)
      → IsWatched f
      → f.held ≡ none
      → f.receives ≡ suc n
      → (t : Feed) × (call c f ≡ returned (none, t))
        × IsWatched t
        × (t.held ≡ none)
        × (t.receives ≡ n)
        × (t.output ≡ f.output ++ (message_of (shown c) ∷ []))
  unfolding offer
  call-shows c f n p free more =
      let (t, e, (q, o, r, h)) = call-offers c f p free in
      (
        offer (suc n) (message_of (shown c)) t,
        e ∙ ap (λ k. returned (none, offer k (message_of (shown c)) t)) more,
        q,
        h ∙ free,
        refl,
        ap (λ x. x ++ (message_of (shown c) ∷ [])) o,
      )

  -- one that it does not
  call-holds :
      (c : Call) (f : Feed)
      → IsWatched f
      → f.held ≡ none
      → f.receives ≡ 0
      → (t : Feed) × (call c f ≡ returned (none, t))
        × IsWatched t
        × (t.held ≡ some (message_of (shown c)))
        × (t.output ≡ f.output)
  unfolding offer
  call-holds c f p free none_left =
      let (t, e, (q, o, r, h)) = call-offers c f p free in
      (
        offer 0 (message_of (shown c)) t,
        e ∙ ap (λ k. returned (none, offer k (message_of (shown c)) t)) none_left,
        q,
        refl,
        o,
      )

  -- Where the screen receives as often as there are calls, it gets all their messages.
  pub calls-AllShown :
      (cs : List Call) (f : Feed) (n : ℕ)
      → IsWatched f
      → f.held ≡ none
      → f.receives ≡ n
      → length cs ≤ n
      → (x : List (Option Error) × Feed) × (calls cs f ≡ returned x)
        × AllShown cs f x
        × (delivered cs f ≡ x.1.output)
  calls-AllShown [] f n p free more enough =
      (([], f), refl, (refl, sym (append-nil f.output)), refl)
  calls-AllShown (c ∷ rest) f zero p free more enough = absurd (omega arith)
  calls-AllShown (c ∷ rest) f (suc n) p free more enough =
      let (t, e, q, h, r, o) = call-shows c f n p free more in
      let ((es, u), e', (errors, o'), d) = calls-AllShown rest t n q h r (omega arith) in
      (
        (none ∷ es, u),
        rw (e, e') refl,
        (ap (none ∷◌) errors, o' ∙ rw o (append_assoc f.output _ _)),
        rw (delivered, e) d,
      )

  delivered-held :
      (cs : List Call) (f : Feed) (msg : Msg)
      → IsWatched f
      → f.held ≡ some msg
      → delivered cs f ≡ f.output
  delivered-held [] f msg p h = refl
  delivered-held (c ∷ cs) f msg p h = rw (delivered, call-blocks c f msg p h) refl

  -- Where the screen receives fewer messages than there are calls, it gets as many as it receives.
  pub length-delivered :
      (cs : List Call) (f : Feed) (n : ℕ)
      → IsWatched f
      → f.held ≡ none
      → f.receives ≡ n
      → n < length cs
      → length (delivered cs f) ≡ length f.output + n
  length-delivered [] f n p free more few = absurd (omega arith)
  length-delivered (c ∷ cs) f zero p free more few =
      let (t, e, q, h, o) = call-holds c f p free more in
      rw (delivered, e) (ap length (delivered-held cs t _ q h ∙ o) ∙ omega arith)
  length-delivered (c ∷ cs) f (suc n) p free more few =
      let (t, e, q, h, r, o) = call-shows c f n p free more in
      rw (delivered, e)
        (length-delivered cs t n q h r (omega arith)
          ∙ ap (λ k. k + n) (ap length o ∙ length-snoc f.output _)
          ∙ omega arith)
