-- ===== src/Debug.antt =====
-- client/debugstore: the stores that keep what they receive and pass it on, for debugging. Both have
-- the same state and the same handlers on messages of their own type.
pub mod Contents
mod Tests
use notyetanotherenvoybacken.Common.{
  String, Bool, true, false, Option, none, some, List, [], ◌∷◌, Dict, Error, Result, ok, err,
  Outcome, returned, blocked, insert, erase, ◌++◌, if◌then◌else◌,
}
use notyetanotherenvoybacken.Address.State.{Resource, AddressMessage}
use notyetanotherenvoybacken.Resource.Removals.{Kind}

-- `NotifyMsg`, by its operation
pub data NotifyMsg {ℓ} (M : Type ℓ) : Type ℓ where
  update_msg : List M → NotifyMsg M
  remove_msg : List String → NotifyMsg M

-- `AddressStore` and `ResourceStore` of the package: the contents, whether a message is wanted, and
-- the messages that were received from the channel
pub record DebugStore {ℓ} (M : Type ℓ) : Type ℓ where
  pub content : Dict M
  pub want_notify : Bool
  pub received : List (NotifyMsg M)

module _ {ℓ} {M : Type ℓ} where
  -- the store of `NewAddressStore` and `NewResourceStore`
  unfoldable pub new_debug_store : DebugStore M
  new_debug_store = record { content = []; want_notify = false; received = [] }

  -- `Notify`
  unfoldable pub notify : DebugStore M → DebugStore M
  notify s = record s { want_notify = true }

  -- a send on the unbuffered channel, which waits until somebody receives
  unfoldable pub send : Bool → NotifyMsg M → DebugStore M → Outcome (Option Error × DebugStore M)
  send listening msg s =
      if s.want_notify
      then (if listening
          then returned (none, record s { received = s.received ++ (msg ∷ []) })
          else blocked)
      else returned (none, s)

  -- the messages of a response that unmarshal
  unfoldable pub unmarshalled : (String → Result M) → List Resource → List M
  unmarshalled unmarshal [] = []
  unmarshalled unmarshal (res ∷ rest) = elim (unmarshal res.body) [
    | err e ↦ unmarshalled unmarshal rest
    | ok m ↦ m ∷ unmarshalled unmarshal rest
  ]

  -- the loop of `Update`, which stores them by the names of their resources
  unfoldable pub store_all : (String → Result M) → Dict M → List Resource → Dict M
  store_all unmarshal d [] = d
  store_all unmarshal d (res ∷ rest) = elim (unmarshal res.body) [
    | err e ↦ store_all unmarshal d rest
    | ok m ↦ store_all unmarshal (insert res.name m d) rest
  ]

  -- the loop of `Remove`
  unfoldable pub delete_all : Dict M → List String → Dict M
  delete_all d [] = d
  delete_all d (name ∷ names) = delete_all (erase name d) names

  unfoldable pub update_store :
      (String → Result M)
      → Bool
      → List Resource
      → DebugStore M
      → Outcome (Option Error × DebugStore M)
  unfolding send store_all unmarshalled
  update_store unmarshal listening resources s =
      send listening (update_msg (unmarshalled unmarshal resources))
        (record s { content = store_all unmarshal s.content resources })

  unfoldable pub remove_store :
      Bool → List String → DebugStore M → Outcome (Option Error × DebugStore M)
  unfolding send delete_all
  remove_store listening names s =
      send listening (remove_msg names) (record s { content = delete_all s.content names })

-- `Update` and `Remove` of the address store
unfoldable pub update_addresses :
    (String → Result AddressMessage)
    → Bool
    → List Resource
    → DebugStore AddressMessage
    → Outcome (Option Error × DebugStore AddressMessage)
unfolding update_store
update_addresses unmarshal listening resources s = update_store unmarshal listening resources s

unfoldable pub remove_addresses :
    Bool
    → List String
    → DebugStore AddressMessage
    → Outcome (Option Error × DebugStore AddressMessage)
unfolding remove_store
remove_addresses listening names s = remove_store listening names s

-- `Update` and `Remove` of the resource store
unfoldable pub update_kinds :
    (String → Result Kind)
    → Bool
    → List Resource
    → DebugStore Kind
    → Outcome (Option Error × DebugStore Kind)
unfolding update_store
update_kinds unmarshal listening resources s = update_store unmarshal listening resources s

unfoldable pub remove_kinds :
    Bool → List String → DebugStore Kind → Outcome (Option Error × DebugStore Kind)
unfolding remove_store
remove_kinds listening names s = remove_store listening names s
