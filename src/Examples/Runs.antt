-- ===== src/Examples/Runs.antt =====
-- examples/dump/main.go: the client of the dump never hangs.
use mathlib.Core.Path.{subst}
use mathlib.Core.Option.{some-injective}
use notyetanotherenvoybacken.Common.{
  String, Bool, true, false, ◌≡◌, refl, none, some, Result-cases, inl, inr, lookup, trim_space,
  if◌then◌else◌,
}
use notyetanotherenvoybacken.Debug.{
  new_debug_store, send, update_store, remove_store, update_addresses, remove_addresses,
  update_kinds, remove_kinds,
}
use notyetanotherenvoybacken.Client.Setup.{new_ads_client}
use notyetanotherenvoybacken.Client.Stream.{
  Handler, Handlers, Ending, waiting, ended, crashed, stuck,
}
use notyetanotherenvoybacken.Client.Start.{Loop}
use notyetanotherenvoybacken.Client.Preserves.{IsFine, HandlerKeeps}
use notyetanotherenvoybacken.Client.Kept.{start-keeps}
use notyetanotherenvoybacken.Examples.Programs.{
  World, Run, fatal, ran, lost, Messages, after_client, client_config, run_client, run_program,
  Stores, dumped_addresses, dumped_resources, dump_handlers, dump_main,
}

module _ {S : Type 0} (P : S → Type 0) where
  -- The program stops with an error, or its client ends or waits for the control plane; it neither
  -- blocks nor crashes. The predicate holds of the stores, if the client ran.
  abbrev pub Answers : Run S → Type 0
  Answers (fatal why e none) = Unit
  Answers (fatal why e (some s)) = P s
  Answers (ran ending s) = P s
  Answers (lost ending) = ⊥

  -- what each handler of a program promises
  abbrev AllKeep : Handlers S → Type 0
  AllKeep handlers =
      (type_url : String) (h : Handler S)
      → lookup type_url handlers ≡ some (some h)
      → HandlerKeeps ⊥ P h

  either_keeps :
      (b c : Bool) (first second h : Handler S)
      → HandlerKeeps ⊥ P first
      → HandlerKeeps ⊥ P second
      → (if b then some (some first) else if c then some (some second) else none) ≡ some (some h)
      → HandlerKeeps ⊥ P h
  either_keeps true c first second h k l e =
      subst (HandlerKeeps ⊥ P) (some-injective _ _ (some-injective _ _ e)) k
  either_keeps false true first second h k l e =
      subst (HandlerKeeps ⊥ P) (some-injective _ _ (some-injective _ _ e)) l
  either_keeps false false first second h k l e = absurd cc

module _ {S : Type 0} (P : S → Type 0) (said : Messages) (world : World) (handlers : Handlers S)
    (keeps : AllKeep P handlers) where
  after_client-Answers :
      (x : Ending × Loop S)
      → P x.1.state × IsFine ⊥ x.0
      → Answers P (after_client said world handlers x)
  unfolding after_client
  after_client-Answers (waiting, l) p = p.0
  after_client-Answers (ended none, l) p = p.0
  after_client-Answers (ended (some e), l) p = p.0
  after_client-Answers (crashed, l) p = p.1
  after_client-Answers (stuck, l) p = p.1

  run_client-Answers :
      (s : S) (token : String) → P s → Answers P (run_client said world handlers s token)
  unfolding run_client
  run_client-Answers s token p =
      elim (Result-cases (new_ads_client world.dialer (client_config said world handlers token))) [
        | inr (e, n) ↦ rw (n, run_client) tt
        | inl (c, n) ↦
            rw (n, run_client)
              (after_client-Answers _ (
                start-keeps ⊥ P world.verdicts c.node_info c.config handlers keeps world.rounds s
                  p))
      ]

  run_program-Answers : (s : S) → P s → Answers P (run_program said world handlers s)
  unfolding run_program
  run_program-Answers s p = elim (Result-cases world.token_file) [
    | inr (e, n) ↦ rw (n, run_program) tt
    | inl (content, n) ↦ rw (n, run_program) (run_client-Answers s (trim_space content) p)
  ]

-- nobody receives from the dump's stores
abbrev pub IsUnwatched : Stores → Type 0
IsUnwatched s = (s.addresses.want_notify ≡ false) × (s.resources.want_notify ≡ false)

module _ (world : World) where
  dump_handlers-keep : AllKeep IsUnwatched (dump_handlers world)
  unfolding lookup send update_store remove_store update_addresses remove_addresses update_kinds
      remove_kinds
  dump_handlers-keep type_url h e =
      either_keeps IsUnwatched _ _ (dumped_addresses world) (dumped_resources world) h
        (λ names s (p, q). rw p (refl, q), λ rs s (p, q). rw p (refl, q))
        (λ names s (p, q). rw q (p, refl), λ rs s (p, q). rw q (p, refl)) e

  -- Whatever the control plane sends, no handler of the dump's client blocks or panics, though nobody
  -- receives from its stores: the program stops with an error, or its client ends or waits. If the
  -- client ran, its stores still send to nobody.
  pub dump_main-Answers : Answers IsUnwatched (dump_main world)
  unfolding dump_main new_debug_store
  dump_main-Answers = run_program-Answers IsUnwatched _ world _ dump_handlers-keep _ (refl, refl)
