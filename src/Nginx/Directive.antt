-- ===== src/Nginx/Directive.antt =====
-- The crossplane library's `Directive`, with the fields that the program sets.
use notyetanotherenvoybacken.Common.{String, Option, none, some, List, [], ◌∷◌}

mutual
  pub data Directive : Type 0 where
    directive : String → List String → Directives → Option String → Directive

  pub data Directives : Type 0 where
    nil : Directives
    cons : Directive → Directives → Directives

-- a directive with arguments alone
abbrev pub simple : String → List String → Directive
simple name args = directive name args nil none

-- a directive with a block
abbrev pub block : String → List String → Directives → Directive
block name args body = directive name args body none

-- a comment line
abbrev pub comment : String → Directive
comment s = directive "#" (s ∷ []) nil (some s)

abbrev pub append : Directives → Directives → Directives
append nil ds = ds
append (cons d rest) ds = cons d (append rest ds)
