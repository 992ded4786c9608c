-- ===== src/Resource/Servers.antt =====
-- resource.go: the keys of server files, and the routes that a server file is generated for.
use notyetanotherenvoybacken.Common.{
  String, true, false, ◌≡◌, ◌≢◌, refl, ap, ◌∙◌, none, List, [], ◌∷◌, arith, panicked, has_char, cut,
  cut-append, lookup, insert, contains, lookup-erase, Option-cases, inl, inr, string_eq,
}
use Prim.Native.String
use Prim.Native.String.append
use notyetanotherenvoybacken.Resource.Names.{two_parts, make_server_file_key, parse_server_file_key}
use notyetanotherenvoybacken.Resource.State.{Route, ResourceStore, values_of, add_to_reverse_map}
use notyetanotherenvoybacken.Resource.Book.{Changes, matching_routes, update_route}
use notyetanotherenvoybacken.Resource.Removals.{remove_route}
use notyetanotherenvoybacken.Resource.Listed.{
  contains-add_to_reverse_map, values_of-remove_from_reverse_map,
}

-- A server file key parses back into the listener key and the hostname, where the listener key has
-- no colon.
pub parse-make_server_file_key :
    (listener_key hostname : String)
    → has_char b':' listener_key ≡ false
    → parse_server_file_key (make_server_file_key listener_key hostname) ≡ (listener_key, hostname)
unfolding parse_server_file_key make_server_file_key
parse-make_server_file_key listener_key hostname h =
    ap
      (λ t.
        two_parts (String.◌++◌ listener_key (String.◌++◌ ":" hostname))
          (cut b':' (String.◌++◌ listener_key t)))
      (colon hostname)
    ∙ ap (two_parts (String.◌++◌ listener_key (String.◌++◌ ":" hostname)))
        (cut-append ":" listener_key hostname h)
  where
    colon : (t : String) → String.◌++◌ ":" t ≡ String.◌∷◌ ":" t
    colon t = append.cons ":" "" t ∙ ap (String.◌∷◌ ":") (append.nil t)

-- Where a key among them has no route, the loop over the keys panics.
stale-panics :
    (r : ResourceStore) (keys : List String) (hostname k : String)
    → contains k keys ≡ true
    → lookup k r.routes ≡ none
    → matching_routes r keys hostname ≡ panicked
unfolding matching_routes contains
stale-panics r [] hostname k h gone = cc
stale-panics r (key ∷ keys) hostname k h gone = elim (Option-cases (lookup key r.routes)) [
  | inl e ↦ rw (e, matching_routes) refl
  | inr (route, e) ↦
      let later : contains k keys ≡ true = ground (arith, h, e, gone) in
      rw (e, matching_routes) (ground (arith, stale-panics r keys hostname k later gone))
]

-- A route that is updated under one listener, then under another, and then removed makes the loop
-- of `generateServerFile` over the first listener's routes panic, for every hostname.
pub moved_route_panics :
    (c : Changes) (first second : Route) (hostname : String)
    → first.key ≡ second.key
    → first.listener_key ≢ second.listener_key
    → (let r = (remove_route (update_route (update_route c first) second) second).store in
        matching_routes r (values_of r.listener_to_routes first.listener_key) hostname ≡ panicked)
unfolding remove_route update_route
moved_route_panics c first second hostname same moved =
    stale-panics (remove_route (update_route (update_route c first) second) second).store _ hostname
      first.key
      (ground (
        arith,
        contains-add_to_reverse_map c.store.listener_to_routes first.listener_key first.key
            first.listener_key first.key,
        contains-add_to_reverse_map
            (add_to_reverse_map c.store.listener_to_routes first.listener_key first.key)
            second.listener_key second.key first.listener_key first.key,
        values_of-remove_from_reverse_map
            (add_to_reverse_map
              (add_to_reverse_map c.store.listener_to_routes first.listener_key first.key)
              second.listener_key second.key)
            second.listener_key second.key first.listener_key moved,
      ))
      (ground (
        arith,
        same,
        lookup-erase first.key second.key
            (insert second.key second (insert first.key first c.store.routes)),
      ))
