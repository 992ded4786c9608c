-- ===== src/Debug/Tests.antt =====
-- The debug stores on concrete messages.
use notyetanotherenvoybacken.Common.{
  String, true, false, ◌≡◌, refl, none, [], ◌∷◌, ◌++◌, external, Result, ok, err, returned, lookup,
  ◌==◌, if◌then◌else◌, string_eq,
}
use notyetanotherenvoybacken.Address.Samples.{resource}
use notyetanotherenvoybacken.Debug.{update_msg, DebugStore, notify, unmarshalled, update_store}
use notyetanotherenvoybacken.Debug.Contents.{latest, update_store_lem}

abbrev decode : String → Result String
decode body = if body == "bad" then err (external 1) else ok body

abbrev watched : DebugStore String
watched = notify (record { content = ("pod", "old") ∷ []; want_notify = false; received = [] })

update_store_lem_example :
    (t : DebugStore String) × (update_store decode true
        (resource "pod" ∷ resource "bad" ∷ [])
        watched
      ≡ returned (none, t))
    × ((name : String)
        → lookup name t.content
          ≡ latest decode name (resource "pod" ∷ resource "bad" ∷ []) (lookup name watched.content))
    × (t.received ≡ (
        if watched.want_notify
        then watched.received
          ++ (update_msg (unmarshalled decode (resource "pod" ∷ resource "bad" ∷ [])) ∷ [])
        else watched.received))
update_store_lem_example =
    update_store_lem decode true (resource "pod" ∷ resource "bad" ∷ []) watched (λ e. refl)
