-- ===== src/Debug/Contents.antt =====
-- client/debugstore: what the stores hold after an update or a removal.
use notyetanotherenvoybacken.Common.{
  String, Bool, true, ◌≡◌, refl, ap, ◌∙◌, Option, none, some, List, [], ◌∷◌, ◌++◌, Dict, Result, ok,
  err, Result-cases, inl, inr, arith, returned, lookup, insert, erase, contains, lookup-insert,
  lookup-erase, ◌==◌, if◌then◌else◌, string_eq,
}
use notyetanotherenvoybacken.Address.State.{Resource}
use notyetanotherenvoybacken.Debug.{
  NotifyMsg, update_msg, remove_msg, DebugStore, send, unmarshalled, store_all, delete_all,
  update_store, remove_store,
}

module _ {ℓ} {M : Type ℓ} where
  abbrev or_before : Result M → Option M → Option M
  or_before (ok m) before = some m
  or_before (err e) before = before

  -- The message that a response leaves under a name: that of the last resource of the name that
  -- unmarshals, else the one that was there.
  pub latest : (String → Result M) → String → List Resource → Option M → Option M
  latest unmarshal name [] before = before
  latest unmarshal name (res ∷ rest) before =
      latest unmarshal name rest
        (if name == res.name then or_before (unmarshal res.body) before else before)

  lookup-store_all :
      (unmarshal : String → Result M) (d : Dict M) (resources : List Resource) (name : String)
      → lookup name (store_all unmarshal d resources)
        ≡ latest unmarshal name resources (lookup name d)
  unfolding store_all latest
  lookup-store_all unmarshal d [] name = refl
  lookup-store_all unmarshal d (res ∷ rest) name = elim (Result-cases (unmarshal res.body)) [
    | inl (m, e) ↦
        rw (e, store_all, latest)
          (lookup-store_all unmarshal (insert res.name m d) rest name
            ∙ ap (latest unmarshal name rest) (lookup-insert name res.name m d))
    | inr (x, e) ↦
        rw (e, store_all, latest)
          (lookup-store_all unmarshal d rest name ∙ ap (latest unmarshal name rest) (ground arith))
  ]

  lookup-delete_all :
      (d : Dict M) (names : List String) (name : String)
      → lookup name (delete_all d names) ≡ (if contains name names then none else lookup name d)
  unfolding delete_all contains
  lookup-delete_all d [] name = refl
  lookup-delete_all d (n ∷ names) name =
      ground (arith, lookup-delete_all (erase n d) names name, lookup-erase name n d)

  send_lem :
      (listening : Bool) (msg : NotifyMsg M) (s : DebugStore M)
      → (s.want_notify ≡ true → listening ≡ true)
      → send listening msg s
        ≡ returned (
          none,
          record s { received = if s.want_notify then s.received ++ (msg ∷ []) else s.received },
        )
  unfolding send
  send_lem listening msg s free = ground (arith, free)

  -- An update returns, unless a message is wanted and nobody receives it, without an error. Under
  -- each name the store then holds the latest message that unmarshals. If a message is wanted, the
  -- receiver gets the messages that unmarshal, in order.
  pub update_store_lem :
      (unmarshal : String → Result M) (listening : Bool) (resources : List Resource)
      (s : DebugStore M)
      → (s.want_notify ≡ true → listening ≡ true)
      → (t : DebugStore M) × (update_store unmarshal listening resources s ≡ returned (none, t))
        × ((name : String)
            → lookup name t.content ≡ latest unmarshal name resources (lookup name s.content))
        × (t.received ≡ (
            if s.want_notify
            then s.received ++ (update_msg (unmarshalled unmarshal resources) ∷ [])
            else s.received))
  unfolding update_store
  update_store_lem unmarshal listening resources s free = (
    record s {
      content = store_all unmarshal s.content resources;
      received =
          if s.want_notify
          then s.received ++ (update_msg (unmarshalled unmarshal resources) ∷ [])
          else s.received;
    },
    send_lem listening (update_msg (unmarshalled unmarshal resources))
        (record s { content = store_all unmarshal s.content resources }) free,
    lookup-store_all unmarshal s.content resources,
    refl,
  )

  -- A removal returns, unless a message is wanted and nobody receives it, without an error.
  -- Exactly the named messages are gone, and if a message is wanted, the receiver gets the names.
  remove_store_lem :
      (listening : Bool) (names : List String) (s : DebugStore M)
      → (s.want_notify ≡ true → listening ≡ true)
      → (t : DebugStore M) × (remove_store listening names s ≡ returned (none, t))
        × ((name : String)
            → lookup name t.content ≡ (if contains name names then none else lookup name s.content))
        × (t.received
            ≡ (if s.want_notify then s.received ++ (remove_msg names ∷ []) else s.received))
  unfolding remove_store
  remove_store_lem listening names s free = (
    record s {
      content = delete_all s.content names;
      received = if s.want_notify then s.received ++ (remove_msg names ∷ []) else s.received;
    },
    send_lem listening (remove_msg names) (record s { content = delete_all s.content names }) free,
    lookup-delete_all s.content names,
    refl,
  )
