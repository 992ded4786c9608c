-- ===== src/Resource/Match.antt =====
-- resource.go: how a match becomes NGINX's: `generateMatchDirectives` and `buildLocationPattern`.
use notyetanotherenvoybacken.Common.{
  String, Option, none, some, List, [], ◌∷◌, ◌++◌, sprintf, replace_all, to_lower, ◌==◌,
  if◌then◌else◌, string_eq,
}
use notyetanotherenvoybacken.Nginx.Directive.{Directive, Directives, nil, cons, simple, block}
use notyetanotherenvoybacken.Resource.Messages.{
  MatchValue, exact_value, regex_value, no_value, NamedMatch, PathMatch, exact_path, path_prefix,
  regex_path, no_path, RouteMatch,
}

-- the variable of a header
unfoldable pub header_variable : String → String
header_variable name = sprintf ("$http_" ∷ replace_all b'-' "_" (to_lower name) ∷ [])

-- the variable of a query parameter
unfoldable pub query_variable : String → String
query_variable name = sprintf ("$arg_" ∷ name ∷ [])

abbrev pub unequal : String → String → String
unequal variable value = sprintf (variable ∷ " != \"" ∷ value ∷ "\"" ∷ [])

abbrev pub unlike : String → String → String
unlike variable regex = sprintf (variable ∷ " !~ \"" ∷ regex ∷ "\"" ∷ [])

-- the condition of a method match, unless the method is empty
unfoldable pub method_conditions : Option String → List String
method_conditions none = []
method_conditions (some method) = if method == "" then [] else unequal "$request_method" method ∷ []

-- the condition of a header match or of a query match
unfoldable pub value_conditions : String → MatchValue → List String
value_conditions variable (exact_value v) = unequal variable v ∷ []
value_conditions variable (regex_value r) = unlike variable r ∷ []
value_conditions variable no_value = []

unfoldable pub named_conditions : (String → String) → List NamedMatch → List String
unfolding value_conditions
named_conditions variable [] = []
named_conditions variable (m ∷ ms) =
    value_conditions (variable m.name) m.value ++ named_conditions variable ms

-- the conditions under which a request does not match
unfoldable pub conditions : RouteMatch → List String
unfolding method_conditions named_conditions header_variable query_variable
conditions match =
    method_conditions match.method
    ++ named_conditions header_variable match.headers
    ++ named_conditions query_variable match.query_params

abbrev pub return_404 : Directive
return_404 = simple "return" ("404" ∷ [])

abbrev pub if_directive : String → Directive
if_directive condition =
    block "if" (sprintf ("(" ∷ condition ∷ ")" ∷ []) ∷ []) (cons return_404 nil)

unfoldable pub if_directives : List String → Directives
if_directives [] = nil
if_directives (c ∷ cs) = cons (if_directive c) (if_directives cs)

-- `generateMatchDirectives`
unfoldable pub generate_match_directives : RouteMatch → Directives
unfolding conditions if_directives
generate_match_directives match = if_directives (conditions match)

abbrev pub path_pattern : PathMatch → String
path_pattern (exact_path path) = sprintf ("= " ∷ path ∷ [])
path_pattern (path_prefix path) = path
path_pattern (regex_path regex) = sprintf ("~ " ∷ regex ∷ [])
path_pattern no_path = "/"

abbrev pub path_or_root : Option PathMatch → String
path_or_root none = "/"
path_or_root (some path) = path_pattern path

-- `buildLocationPattern`
unfoldable pub build_location_pattern : Option RouteMatch → String
build_location_pattern none = "/"
build_location_pattern (some match) = path_or_root match.path
