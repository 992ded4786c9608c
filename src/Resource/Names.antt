-- ===== src/Resource/Names.antt =====
-- resource.go: the keys and the file names of servers and routes.
use Prim.Native.String.{◌++◌}
use Prim.Native.Char.{code}
use notyetanotherenvoybacken.Common.{
  ℕ, String, Option, none, some, [], ◌∷◌, cut, sprintf, ◌==◌, if◌then◌else◌, nat_eq,
}

-- `makeServerFileKey`
unfoldable pub make_server_file_key : String → String → String
make_server_file_key listener_key hostname = sprintf (listener_key ∷ ":" ∷ hostname ∷ [])

-- what `strings.SplitN` found; one part is the whole key
abbrev pub two_parts : String → Option (String × String) → String × String
two_parts key none = (key, "")
two_parts key (some parts) = parts

-- `parseServerFileKey`
unfoldable pub parse_server_file_key : String → String × String
parse_server_file_key key = two_parts key (cut b':' key)

-- what the replacer of `sanitizeFilename` makes of a character
abbrev pub sanitize_char : ℕ → String → String → String
sanitize_char c kept rest =
    if c == b'/'
    then "-" ++ rest
    else if c == b':'
    then "-" ++ rest
    else if c == b'*'
    then "wildcard" ++ rest
    else kept

-- `sanitizeFilename`
unfoldable pub sanitize_filename : String → String
sanitize_filename String.[] = ""
sanitize_filename (String.◌∷◌ c s) =
    let rest = sanitize_filename s in sanitize_char (code c) (String.◌∷◌ c rest) rest

-- `routeFileKey`
unfoldable pub route_file_key : String → String → String
unfolding sanitize_filename
route_file_key route_key listener_key =
    sprintf (sanitize_filename route_key ∷ "-" ∷ sanitize_filename listener_key ∷ [])

-- the files of a server and of a route, below the configuration path
unfoldable pub server_file : String → String
server_file key = sprintf ("servers/" ∷ sanitize_filename key ∷ ".conf" ∷ [])

unfoldable pub route_file : String → String → String
route_file route_key listener_key =
    sprintf ("routes/" ∷ route_file_key route_key listener_key ∷ ".conf" ∷ [])
