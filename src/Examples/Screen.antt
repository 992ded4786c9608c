-- ===== src/Examples/Screen.antt =====
-- examples/adsgui/main.go: the list on the screen has the messages of the channel, in order.
use mathlib.Core.List.{append-nil, append_assoc, map-append}
use notyetanotherenvoybacken.Common.{
  refl, ltb, Option, none, Error, suc, ◌+◌, ◌≤◌, ◌<◌, ◌⊎◌, arith, ℕ, String, List, [], ◌∷◌, ◌++◌,
  map, ◌≡◌, sym, ap, ◌∙◌, returned, length, Bool-cases, inl, inr, if◌then◌else◌, string_eq,
}
use notyetanotherenvoybacken.Examples.Gui.{
  Cmd, wait_for_activity, quit, batch, Item, Msg, TeaMsg, window_size, activity, key, other,
  Library, Model, is_quit_key, insert_message, resize_model, pass_on, update_model, run_model,
}
use notyetanotherenvoybacken.Examples.Feed.{Codec, Feed}
use notyetanotherenvoybacken.Examples.Shown.{
  delivered, AllShown, calls-AllShown, length-delivered, Call, shown, message_of, IsWatched, calls,
}

-- The messages of the channel that the program meets before the first key that quits.
abbrev pub activities : List TeaMsg → List Msg
activities [] = []
activities (window_size w h ∷ rest) = activities rest
activities (activity time msg ∷ rest) = msg ∷ activities rest
activities (key k ∷ rest) = if is_quit_key k then [] else activities rest
activities (other x ∷ rest) = activities rest

-- the message that an item shows
abbrev pub message_in : Item → Msg
message_in i = record { operation = i.title; value = i.body }

-- How often the program waits for its channel again.
abbrev pub waits : {C : Type 0} → List (Cmd C) → ℕ
waits [] = 0
waits (wait_for_activity ∷ cmds) = suc (waits cmds)
waits (quit ∷ cmds) = waits cmds
waits (batch cs ∷ cmds) = waits cmds

-- What the list's documentation says of its items: an insertion at the end appends, and neither a
-- message nor another size changes them.
abbrev pub KeepsItems : {L V C : Type 0} → Library L V C → Type 0
KeepsItems {L = L} lib =
    ((l : L) (i : Item)
      → lib.items (lib.insert_item l (length (lib.items l)) i) ≡ lib.items l ++ (i ∷ []))
    × ((l : L) (w h : ℕ) → lib.items (lib.set_size l w h) ≡ lib.items l)
    × ((l : L) (msg : TeaMsg) → lib.items (lib.update_list l msg).0 ≡ lib.items l)

order : (m n : ℕ) → (m < n) ⊎ (n ≤ m)
order m n = elim (Bool-cases (ltb m n)) [
  | inl h ↦ inl (ground (arith, h))
  | inr h ↦ inr (ground (arith, h))
]

too_few : (n k : ℕ) → n ≡ k → k ≡ 0 + suc n → ⊥
too_few n k e h = omega arith

module _ {L V C : Type 0} (lib : Library L V C) (keeps : KeepsItems lib) where
  abbrev pub listed : Model L V → List Msg
  listed m = map message_in (lib.items m.list)

  listed-insert_message :
      (time : String) (msg : Msg) (m : Model L V)
      → listed (insert_message lib time msg m) ≡ listed m ++ (msg ∷ [])
  unfolding insert_message
  listed-insert_message time msg m = ap (map message_in) (keeps.0 m.list _) ∙ map-append _ _ _

  listed-pass_on : (msg : TeaMsg) (m : Model L V) → listed (pass_on lib msg m).0 ≡ listed m
  unfolding pass_on
  listed-pass_on msg m = ap (map message_in) (keeps.2 m.list msg)

  listed-resize_model : (w h : ℕ) (m : Model L V) → listed (resize_model lib w h m) ≡ listed m
  unfolding resize_model
  listed-resize_model w h m = ap (map message_in) (keeps.1 m.list _ _)

  -- The list has the items that it had, then those of the messages of the channel, in order, up to
  -- the first key that quits.
  pub run_model-lists :
      (msgs : List TeaMsg) (m : Model L V)
      → listed (run_model lib msgs m).0 ≡ listed m ++ activities msgs
  unfolding run_model update_model
  run_model-lists [] m = sym (append-nil (listed m))
  run_model-lists (window_size w h ∷ rest) m =
      run_model-lists rest (pass_on lib (window_size w h) (resize_model lib w h m)).0
      ∙ ap (λ l. l ++ activities rest)
          (listed-pass_on (window_size w h) (resize_model lib w h m) ∙ listed-resize_model w h m)
  run_model-lists (activity time msg ∷ rest) m =
      run_model-lists rest (insert_message lib time msg m)
      ∙ ap (λ l. l ++ activities rest) (listed-insert_message time msg m)
      ∙ append_assoc (listed m) _ _
  run_model-lists (key k ∷ rest) m = elim (Bool-cases (is_quit_key k)) [
    | inl h ↦ rw (h, run_model, update_model, h) (sym (append-nil (listed m)))
    | inr h ↦
        rw (h, run_model, update_model, h)
          (run_model-lists rest (pass_on lib (key k) m).0
            ∙ ap (λ l. l ++ activities rest) (listed-pass_on (key k) m))
  ]
  run_model-lists (other x ∷ rest) m =
      run_model-lists rest (pass_on lib (other x) m).0
      ∙ ap (λ l. l ++ activities rest) (listed-pass_on (other x) m)

  -- It waits again once for each message of the channel.
  run_model-waits :
      (msgs : List TeaMsg) (m : Model L V)
      → waits (run_model lib msgs m).1 ≡ length (activities msgs)
  unfolding run_model update_model pass_on
  run_model-waits [] m = refl
  run_model-waits (window_size w h ∷ rest) m = run_model-waits rest _
  run_model-waits (activity time msg ∷ rest) m = ap suc (run_model-waits rest _)
  run_model-waits (key k ∷ rest) m = elim (Bool-cases (is_quit_key k)) [
    | inl h ↦ rw (h, run_model, update_model) refl
    | inr h ↦ rw (h, run_model, update_model, h) (run_model-waits rest (pass_on lib (key k) m).0)
  ]
  run_model-waits (other x ∷ rest) m = run_model-waits rest _

  -- The client calls the debug stores' handlers, beside the goroutine and the screen, which waits for
  -- its channel at the start and again where its `Update` says so. If the screen meets just the
  -- messages that it receives so, among keys, sizes and other messages, then all the calls return
  -- without an error, and the screen receives a message of each, in order. Its list has the items that
  -- it had, then one for each call: the operation and the type, and the JSON of what the response
  -- updated or removed. It needs a list that keeps its items, stores with empty channels and a
  -- receiver, and nothing received or held before.
  pub screen_shows :
      (codec : Codec) (cs : List Call) (f : Feed) (msgs : List TeaMsg) (m : Model L V)
      → IsWatched f
      → f.held ≡ none
      → f.output ≡ []
      → f.receives ≡ suc (waits (run_model lib msgs m).1)
      → activities msgs ≡ delivered codec cs f
      → (x : List (Option Error) × Feed) × (calls codec cs f ≡ returned x)
        × AllShown codec cs f x
        × (listed (run_model lib msgs m).0 ≡ listed m ++ map (λ c. message_of (shown codec c)) cs)
  screen_shows codec cs f msgs m p free none_before rearmed met =
      let n = waits (run_model lib msgs m).1 in
      let received : n ≡ length (delivered codec cs f) = run_model-waits msgs m ∙ ap length met in
      elim (order (suc n) (length cs)) [
        | inl few ↦ absurd (
            too_few n (length (delivered codec cs f)) received (
              length-delivered codec cs f (suc n) p free rearmed few
              ∙ ap (λ l. length l + suc n) none_before))
        | inr enough ↦
            let (x, e, all, d) = calls-AllShown codec cs f (suc n) p free rearmed enough in
            (
              x,
              e,
              all,
              run_model-lists msgs m
                  ∙ ap (listed m ++◌) (
                      met
                      ∙ d
                      ∙ all.1
                      ∙ ap (λ l. l ++ map (λ c. message_of (shown codec c)) cs) none_before),
            )
      ]
