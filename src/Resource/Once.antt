-- ===== src/Resource/Once.antt =====
-- resource.go: a reverse lookup lists a value once under a key.
use notyetanotherenvoybacken.Common.{
  String, Bool, true, false, ◌≡◌, refl, List, [], ◌∷◌, ◌++◌, arith, contains, Bool-cases, inl, inr,
  ◌==◌, if◌then◌else◌, string_eq, is_empty, erase, insert,
}
use notyetanotherenvoybacken.Resource.State.{
  ReverseMap, values_of, add_to_reverse_map, remove_first, remove_from_reverse_map,
}
use notyetanotherenvoybacken.Resource.Listed.{values_of-insert, values_of-erase, contains-append}

-- After the removal of a value it is not there any more.
abbrev pub IsOnce : List String → Type 0
IsOnce vs = (k : String) → contains k (remove_first k vs) ≡ false

pub []-IsOnce : IsOnce []
unfolding contains remove_first
[]-IsOnce k = refl

removed_stays_out :
    (k v : String) (s : List String) → contains k s ≡ false → contains k (remove_first v s) ≡ false
unfolding contains remove_first
removed_stays_out k v [] h = refl
removed_stays_out k v (x ∷ s) h = ground (arith, h, removed_stays_out k v s)

remove_first-append :
    (k v : String) (s : List String)
    → contains k s ≡ true
    → remove_first k (s ++ (v ∷ [])) ≡ remove_first k s ++ (v ∷ [])
unfolding contains remove_first
remove_first-append k v [] h = absurd cc
remove_first-append k v (x ∷ s) h = ground (arith, h, remove_first-append k v s)

append-without :
    (k v : String) (s : List String)
    → contains k s ≡ false
    → contains k (remove_first k (s ++ (v ∷ []))) ≡ false
unfolding contains remove_first
append-without k v [] h = ground arith
append-without k v (x ∷ s) h = ground (arith, h, append-without k v s)

append-IsOnce :
    (v : String) (s : List String) → IsOnce s → contains v s ≡ false → IsOnce (s ++ (v ∷ []))
unfolding contains
append-IsOnce v s once new k = elim (Bool-cases (contains k s)) [
  | inr h ↦ append-without k v s h
  | inl h ↦
      rw (remove_first-append k v s h)
        (ground (arith, h, new, once k, contains-append k (remove_first k s) (v ∷ [])))
]

remove_first-commutes :
    (k v : String) (s : List String)
    → remove_first k (remove_first v s) ≡ remove_first v (remove_first k s)
unfolding remove_first
remove_first-commutes k v [] = refl
remove_first-commutes k v (x ∷ s) = ground (arith, remove_first-commutes k v s)

remove_first-IsOnce : (v : String) (s : List String) → IsOnce s → IsOnce (remove_first v s)
remove_first-IsOnce v s once k =
    rw (remove_first-commutes k v s) (removed_stays_out k v (remove_first k s) (once k))

-- Each key is listed once under a listener.
abbrev pub OnceEach : ReverseMap → Type 0
OnceEach m = (j : String) → IsOnce (values_of m j)

either-IsOnce : (b : Bool) (s t : List String) → IsOnce s → IsOnce t → IsOnce (if b then s else t)
either-IsOnce true s t h k = h
either-IsOnce false s t h k = k

insert-OnceEach :
    (m : ReverseMap) (key : String) (vs : List String)
    → OnceEach m
    → IsOnce vs
    → OnceEach (insert key vs m)
insert-OnceEach m key vs once h j =
    rw (values_of-insert m j key vs) (either-IsOnce (j == key) vs (values_of m j) h (once j))

pub erase-OnceEach : (m : ReverseMap) (key : String) → OnceEach m → OnceEach (erase key m)
erase-OnceEach m key once j =
    rw (values_of-erase m j key) (either-IsOnce (j == key) [] (values_of m j) []-IsOnce (once j))

pub add_to_reverse_map-OnceEach :
    (m : ReverseMap) (key value : String) → OnceEach m → OnceEach (add_to_reverse_map m key value)
unfolding add_to_reverse_map
add_to_reverse_map-OnceEach m key value once =
    elim (Bool-cases (contains value (values_of m key))) [
      | inl h ↦ rw h once
      | inr h ↦ rw h (
          insert-OnceEach m key (values_of m key ++ (value ∷ [])) once
            (append-IsOnce value (values_of m key) (once key) h))
    ]

pub remove_from_reverse_map-OnceEach :
    (m : ReverseMap) (key value : String)
    → OnceEach m
    → OnceEach (remove_from_reverse_map m key value)
unfolding remove_from_reverse_map
remove_from_reverse_map-OnceEach m key value once =
    elim (Bool-cases (is_empty (remove_first value (values_of m key)))) [
      | inl h ↦ rw h (erase-OnceEach m key once)
      | inr h ↦ rw h (
          insert-OnceEach m key (remove_first value (values_of m key)) once
            (remove_first-IsOnce value (values_of m key) (once key)))
    ]

-- The removed value is not under its key any more, if it was there once.
pub removed_is_gone :
    (m : ReverseMap) (key value : String)
    → OnceEach m
    → contains value (values_of (remove_from_reverse_map m key value) key) ≡ false
unfolding remove_from_reverse_map contains
removed_is_gone m key value once = ground (
  arith,
  once key value,
  values_of-erase m key key,
  values_of-insert m key key (remove_first value (values_of m key)),
)
