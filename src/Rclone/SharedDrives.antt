-- ===== src/Rclone/SharedDrives.antt =====
-- The remote of a service account, of internal/rclone/client.go.
use dockvault.Common.{List, [], ◌∷◌, ◌++◌, Text, codes, quoted}
use dockvault.Effects.{Json, Result, ok, bytes, M, ◌>>=◌, ◌>>◌, return, wrap, lift, unmarshal}
use dockvault.Json
use dockvault.Json.{text_field, fields_of, decode_array}
use dockvault.Rclone.{Client, run}

unfoldable pub configure_service_account_remote : Client → Text → Text → Text → M (Unit {0})
configure_service_account_remote c name service_account_file team_drive_id =
    wrap (codes "configuring rclone remote " ++ (quoted name ++ codes ": ")) (
      run c (
        codes "config"
        ∷ codes "create"
        ∷ name
        ∷ codes "drive"
        ∷ codes "scope=drive"
        ∷ (codes "service_account_file=" ++ service_account_file)
        ∷ (codes "team_drive=" ++ team_drive_id)
        ∷ codes "--non-interactive"
        ∷ [])
      >> return tt)

pub record SharedDrive : Type 0 where
  pub id : Text
  pub name : Text

unfoldable pub decode_drive : Json → Result SharedDrive
decode_drive j = Json.◌>>=◌ (fields_of j) λ fs.
    Json.◌>>=◌ (text_field (codes "id") [] fs) λ id.
      Json.◌>>=◌ (text_field (codes "name") [] fs) λ name. ok (record { id = id; name = name })

unfoldable pub parse_backend_drives : Text → M (List SharedDrive)
parse_backend_drives out =
    wrap (codes "parsing rclone backend drives output: ")
      (unmarshal (bytes out) >>= λ j. lift (decode_array decode_drive j))

unfoldable pub list_shared_drives : Client → Text → M (List SharedDrive)
list_shared_drives c remote_name = do
  out ←
      wrap (codes "listing Shared Drives visible to remote " ++ (quoted remote_name ++ codes ": "))
        (run c (codes "backend" ∷ codes "drives" ∷ (remote_name ++ codes ":") ∷ []))
  parse_backend_drives out
