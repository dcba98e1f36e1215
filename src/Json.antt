-- ===== src/Json.antt =====
-- Decoding the fields of a JSON object into a Go struct, as `encoding/json` does it: a field that is
-- absent or null leaves the old value, the last of several counts, another type is an error.
pub mod Omitted
use dockvault.Common.{◌++◌, any, Bool, Option, none, some, List, [], ◌∷◌, Text, codes, ◌=t◌}
use dockvault.Common.{if◌then◌else◌, ℤ}
use dockvault.Effects.{
  Json, null, boolean, number, text, array, object, Items, no_items, item, Fields, no_fields, field,
  Result, ok, err, panic, errorf, Error,
}

-- The value of a key, the last one given.
unfoldable pub get : Text → Fields → Option Json
get k no_fields = none
get k (field j v fs) = elim (get k fs) [
  | some later ↦ some later
  | none ↦ if j =t k then some v else none
]

abbrev pub mismatch : Error
mismatch = errorf (codes "json: cannot unmarshal value into Go struct field")

unfoldable pub as_text : Text → Option Json → Result Text
as_text old none = ok old
as_text old (some null) = ok old
as_text old (some (text t)) = ok t
as_text old (some _) = err mismatch

unfoldable pub as_int : ℤ → Option Json → Result ℤ
as_int old none = ok old
as_int old (some null) = ok old
as_int old (some (number n)) = ok n
as_int old (some _) = err mismatch

pub as_bool : Bool → Option Json → Result Bool
as_bool old none = ok old
as_bool old (some null) = ok old
as_bool old (some (boolean b)) = ok b
as_bool old (some _) = err mismatch

unfoldable pub text_field : Text → Text → Fields → Result Text
unfolding as_text get
text_field key old fs = as_text old (get key fs)

unfoldable pub int_field : Text → ℤ → Fields → Result ℤ
unfolding as_int get
int_field key old fs = as_int old (get key fs)

unfoldable pub bool_field : Text → Bool → Fields → Result Bool
unfolding as_bool get
bool_field key old fs = as_bool old (get key fs)

infixl 5 ◌>>=◌
abbrev pub ◌>>=◌ {ℓ κ} : {A : Type ℓ} {B : Type κ} → Result A → (A → Result B) → Result B
ok a >>= f = f a
err e >>= f = err e
panic t >>= f = panic t

-- The object behind a value; `null` is an object with no field.
unfoldable pub fields_of : Json → Result Fields
fields_of (object fs) = ok fs
fields_of null = ok no_fields
fields_of _ = err mismatch

-- A JSON array into a slice, one element at a time; `null` is the empty slice.
module _ {A : Type 0} (decode : Json → Result A) where
  unfoldable pub decode_items : Items → Result (List A)
  decode_items no_items = ok []
  decode_items (item j js) = do a ← decode j; rest ← decode_items js; ok (a ∷ rest)

  unfoldable pub decode_array : Json → Result (List A)
  unfolding decode_items
  decode_array (array js) = decode_items js
  decode_array null = ok []
  decode_array _ = err mismatch

-- A field that holds a struct, a slice or a map; one that is absent or null holds nothing.
unfoldable pub struct_of : Option Json → Result Fields
struct_of none = ok no_fields
struct_of (some j) = fields_of j

unfoldable pub struct_field : Text → Fields → Result Fields
struct_field key fs = struct_of (get key fs)

unfoldable pub items_of : {A : Type 0} → (Json → Result A) → Option Json → Result (List A)
items_of decode none = ok []
items_of decode (some j) = decode_array decode j

unfoldable pub array_field : {A : Type 0} → (Json → Result A) → Text → Fields → Result (List A)
array_field decode key fs = items_of decode (get key fs)

-- The keys of a map, each once, in the order of the document.
unfoldable pub keys_of : List Text → Fields → List Text
keys_of seen no_fields = seen
keys_of seen (field j v fs) = keys_of (if any (λ k. k =t j) seen then seen else seen ++ (j ∷ [])) fs

-- `omitempty` on a string
unfoldable pub omit_empty : Text → Text → Fields → Fields
omit_empty key [] fs = fs
omit_empty key (c ∷ s) fs = field key (text (c ∷ s)) fs
