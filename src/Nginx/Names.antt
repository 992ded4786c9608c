-- ===== src/Nginx/Names.antt =====
-- manager.go: the file name and the upstream name of a service key `namespace/name/port`.
use notyetanotherenvoybacken.Common.{String, [], ◌∷◌, replace_all, sprintf}

-- `ServiceKeyToFilename`
unfoldable pub service_key_to_filename : String → String
service_key_to_filename key = sprintf (replace_all b'/' "-" key ∷ ".conf" ∷ [])

-- `ServiceKeyToUpstreamName`
unfoldable pub service_key_to_upstream_name : String → String
service_key_to_upstream_name key = replace_all b'/' "_" key
