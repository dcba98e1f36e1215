-- ===== src/Docker/Inspect.antt =====
-- internal/docker/client.go: the listing and inspection of volumes and containers.
use dockvault.Common.{
  Bool, false, Option, none, some, List, [], ◌∷◌, ◌++◌, inl, inr, Text, codes, null, not, keep, map,
  trim_space, trim_prefix, split, split_head, cut, Dict, assign, ℤ, atoi, if◌then◌else◌,
}
use dockvault.Effects.{
  Error, Json, bytes, Answer, Result, ok, M, ◌>>=◌, return, fail, wrap, attempt, lift, unmarshal,
}
use dockvault.Json
use dockvault.Json.{
  as_text, text_field, bool_field, struct_field, array_field, keys_of, fields_of, decode_array,
}
use dockvault.Docker.{Client, run}

unfoldable pub split_lines : Text → List Text
split_lines out = keep (λ s. not (null s)) (map trim_space (split out 10))

module _ {A : Type 0} (command : Text) (decode : Json → Result A) where
  -- The loop over the lines of a listing, each of them a JSON object.
  unfoldable pub parse_lines : List Text → M (List A)
  parse_lines [] = return []
  parse_lines (line ∷ lines) = do
    a ←
        wrap (codes "parsing `docker " ++ (command ++ codes "` output: "))
          (do j ← unmarshal (bytes line); lift (decode j))
    rest ← parse_lines lines
    return (a ∷ rest)

pub record VolumeSummary : Type 0 where
  pub name : Text
  pub driver : Text
  pub mountpoint : Text

unfoldable pub decode_volume : Json → Result VolumeSummary
decode_volume j = Json.◌>>=◌ (fields_of j) λ fs.
    Json.◌>>=◌ (text_field (codes "Name") [] fs) λ name.
      Json.◌>>=◌ (text_field (codes "Driver") [] fs) λ driver.
        Json.◌>>=◌ (text_field (codes "Mountpoint") [] fs)
          λ mountpoint. ok (record { name = name; driver = driver; mountpoint = mountpoint })

abbrev pub list_volumes_args : List Text
list_volumes_args = codes "volume" ∷ codes "ls" ∷ codes "--format" ∷ codes "{{json .}}" ∷ []

unfoldable pub list_volumes : Client → M (List VolumeSummary)
list_volumes c = do
  out ← run c list_volumes_args
  parse_lines (codes "volume ls") decode_volume (split_lines out)

pub record ContainerRef : Type 0 where
  pub id : Text
  pub names : Text
  pub image : Text

unfoldable pub decode_ref : Json → Result ContainerRef
decode_ref j = Json.◌>>=◌ (fields_of j) λ fs. Json.◌>>=◌ (text_field (codes "ID") [] fs) λ id.
    Json.◌>>=◌ (text_field (codes "Names") [] fs) λ names.
      Json.◌>>=◌ (text_field (codes "Image") [] fs)
        λ image. ok (record { id = id; names = names; image = image })

abbrev pub list_containers_args : Bool → List Text
list_containers_args all =
    codes "ps" ∷ codes "--format" ∷ codes "{{json .}}" ∷ (if all then codes "--all" ∷ [] else [])

unfoldable pub list_containers : Client → Bool → M (List ContainerRef)
list_containers c all = do
  out ← run c (list_containers_args all)
  parse_lines (codes "ps") decode_ref (split_lines out)

pub record Mount : Type 0 where
  pub kind : Text
  pub name : Text
  pub source : Text
  pub destination : Text

unfoldable pub decode_mount : Json → Result Mount
decode_mount j = Json.◌>>=◌ (fields_of j) λ fs. Json.◌>>=◌ (text_field (codes "Type") [] fs) λ kind.
    Json.◌>>=◌ (text_field (codes "Name") [] fs) λ name.
      Json.◌>>=◌ (text_field (codes "Source") [] fs) λ source.
        Json.◌>>=◌ (text_field (codes "Destination") [] fs) λ destination.
          ok (record { kind = kind; name = name; source = source; destination = destination })

-- The fields of `rawInspect`.
pub record RawInspect : Type 0 where
  pub id : Text
  pub name : Text
  pub running : Bool
  pub image : Text
  pub env : List Text
  pub mounts : List Mount
  pub ports : List Text

unfoldable pub decode_inspect : Json → Result RawInspect
decode_inspect j = Json.◌>>=◌ (fields_of j) λ fs. Json.◌>>=◌ (text_field (codes "Id") [] fs) λ id.
    Json.◌>>=◌ (text_field (codes "Name") [] fs) λ name.
      Json.◌>>=◌ (struct_field (codes "State") fs) λ state.
        Json.◌>>=◌ (bool_field (codes "Running") false state) λ running.
          Json.◌>>=◌ (struct_field (codes "Config") fs) λ config.
            Json.◌>>=◌ (text_field (codes "Image") [] config) λ image.
              Json.◌>>=◌ (array_field (λ v. as_text [] (some v)) (codes "Env") config) λ env.
                Json.◌>>=◌ (array_field decode_mount (codes "Mounts") fs) λ mounts.
                  Json.◌>>=◌ (struct_field (codes "NetworkSettings") fs) λ network.
                    Json.◌>>=◌ (struct_field (codes "Ports") network) λ ports. ok (record {
                      id = id;
                      name = name;
                      running = running;
                      image = image;
                      env = env;
                      mounts = mounts;
                      ports = keys_of [] ports;
                    })

pub record ContainerDetail : Type 0 where
  pub id : Text
  pub name : Text
  pub image : Text
  pub running : Bool
  pub env : Dict
  pub mounts : List Mount
  pub ports : List ℤ

unfoldable pub env_entry : Dict → Option (Text × Text) → Dict
env_entry env none = env
env_entry env (some (k, v)) = assign k v env

unfoldable pub env_map : Dict → List Text → Dict
unfolding env_entry
env_map env [] = env
env_map env (kv ∷ kvs) = env_map (env_entry env (cut kv b'=')) kvs

unfoldable pub add_port : Option ℤ → List ℤ → List ℤ
add_port none ports = ports
add_port (some n) ports = n ∷ ports

-- The number in front of the protocol, as in `5432/tcp`.
unfoldable pub port_numbers : List Text → List ℤ
unfolding add_port
port_numbers [] = []
port_numbers (p ∷ ps) = add_port (atoi (split_head b'/' p).0) (port_numbers ps)

unfoldable pub detail_of : RawInspect → ContainerDetail
unfolding env_map port_numbers
detail_of r = record {
  id = r.id;
  name = trim_prefix r.name (codes "/");
  image = r.image;
  running = r.running;
  env = env_map [] r.env;
  mounts = r.mounts;
  ports = port_numbers r.ports;
}

unfoldable pub first_inspected : Text → List RawInspect → M ContainerDetail
first_inspected id [] = fail (codes "docker inspect " ++ (id ++ codes ": no such object"))
first_inspected id (r ∷ rs) = return (detail_of r)

unfoldable pub inspect_container : Client → Text → M ContainerDetail
inspect_container c id = do
  out ← run c (codes "inspect" ∷ id ∷ [])
  raws ←
      wrap (codes "parsing `docker inspect " ++ (id ++ codes "` output: "))
        (do j ← unmarshal (bytes out); lift (decode_array decode_inspect j))
  first_inspected id raws

-- The details, without the containers that could not be inspected, and their errors.
unfoldable pub inspected :
    Answer ContainerDetail → List ContainerDetail × List Error → List ContainerDetail × List Error
inspected (inr d) (details, errs) = (d ∷ details, errs)
inspected (inl e) (details, errs) = (details, e ∷ errs)

unfoldable pub inspect_containers : Client → List Text → M (List ContainerDetail × List Error)
inspect_containers c [] = return ([], [])
inspect_containers c (id ∷ ids) = do
  r ← attempt (inspect_container c id)
  rest ← inspect_containers c ids
  return (inspected r rest)
