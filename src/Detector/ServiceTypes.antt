-- ===== src/Detector/ServiceTypes.antt =====
-- internal/detector/service_types.go
use dockvault.Common.{
  ◌=t◌, Bool, false, Option, none, some, ℤ, pos, negsuc, ℕ, List, [], ◌∷◌, Text, codes, ◌==◌,
  to_lower, contains, if◌then◌else◌,
}

pub data ServiceType : Type 0 where
  postgres mysql mongodb redis n8n rabbitmq generic hostdir : ServiceType

-- The constants `Service...`, each with its text.
unfoldable pub name_of : ServiceType → Text
name_of postgres = codes "postgres"
name_of mysql = codes "mysql"
name_of mongodb = codes "mongodb"
name_of redis = codes "redis"
name_of n8n = codes "n8n"
name_of rabbitmq = codes "rabbitmq"
name_of generic = codes "generic"
name_of hostdir = codes "hostdir"

unfoldable pub image_match_order : List (Text × ServiceType)
image_match_order =
    (codes "postgres", postgres)
    ∷ (codes "mysql", mysql)
    ∷ (codes "mongo", mongodb)
    ∷ (codes "redis", redis)
    ∷ (codes "n8n", n8n)
    ∷ (codes "rabbitmq", rabbitmq)
    ∷ []

unfoldable pub first_match : Text → List (Text × ServiceType) → ServiceType
first_match image [] = generic
first_match image ((substr, service) ∷ ms) =
    if contains image substr then service else first_match image ms

unfoldable pub detect_service_type : Text → ServiceType
unfolding first_match image_match_order
detect_service_type image = first_match (to_lower image) image_match_order

abbrev is_port : ℕ → ℤ → Bool
is_port n (pos p) = p == n
is_port n (negsuc p) = false

-- `DetectServiceTypeFromPort`, with `none` for the empty text.
unfoldable pub detect_service_type_from_port : ℤ → Option ServiceType
detect_service_type_from_port port =
    if is_port 5432 port
    then some postgres
    else if is_port 3306 port
    then some mysql
    else if is_port 27017 port
    then some mongodb
    else if is_port 6379 port
    then some redis
    else none

unfoldable pub recommended_backup_type : ServiceType → Text
recommended_backup_type postgres = codes "pg_dump"
recommended_backup_type mysql = codes "mysqldump"
recommended_backup_type mongodb = codes "mongodump --archive"
recommended_backup_type redis = codes "BGSAVE"
recommended_backup_type n8n = codes "volume tar + container lifecycle"
recommended_backup_type rabbitmq = codes "rabbitmqctl export_definitions"
recommended_backup_type hostdir = codes "tar"
recommended_backup_type generic = codes "tar"

unfoldable pub credential_env_keys : ServiceType → List Text
credential_env_keys postgres =
    codes "POSTGRES_USER" ∷ codes "POSTGRES_PASSWORD" ∷ codes "POSTGRES_DB" ∷ []
credential_env_keys mysql =
    codes "MYSQL_ROOT_PASSWORD"
    ∷ codes "MYSQL_USER"
    ∷ codes "MYSQL_PASSWORD"
    ∷ codes "MYSQL_DATABASE"
    ∷ []
credential_env_keys mongodb =
    codes "MONGO_INITDB_ROOT_USERNAME"
    ∷ codes "MONGO_INITDB_ROOT_PASSWORD"
    ∷ codes "MONGO_INITDB_DATABASE"
    ∷ []
credential_env_keys redis = codes "REDIS_PASSWORD" ∷ []
credential_env_keys n8n = []
credential_env_keys rabbitmq = []
credential_env_keys generic = []
credential_env_keys hostdir = []

-- The keys of a service type given by its name.
unfoldable pub credential_env_keys_for : Text → List Text
unfolding credential_env_keys name_of
credential_env_keys_for t =
    if t =t name_of postgres
    then credential_env_keys postgres
    else if t =t name_of mysql
    then credential_env_keys mysql
    else if t =t name_of mongodb
    then credential_env_keys mongodb
    else if t =t name_of redis
    then credential_env_keys redis
    else []
