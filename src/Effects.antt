-- ===== src/Effects.antt =====
-- What the program asks of its surroundings: the commands that it runs, the file system, the clock,
-- the webhook and the terminal. A computation of the program is a function of the world, which logs
-- every request and answers it by an arbitrary function of the log so far.
pub mod Keeps
pub mod Gate
use dockvault.Common.{
  ℕ, Bool, true, false, Option, none, some, List, [], ◌∷◌, ◌++◌, ◌⊎◌, inl, inr, ◌≡◌, refl,
}
use dockvault.Common.{Text, codes, ℤ, Instant}

-- The Go errors that the program tells apart by `os.IsNotExist` and `os.IsExist`. An error that
-- `fmt.Errorf` makes is `other`, since neither test looks into a wrapped error.
pub data ErrorKind : Type 0 where
  not_exist already_exists other : ErrorKind

pub record Error : Type 0 where
  pub kind : ErrorKind
  pub message : Text

-- How a function ends: with a value, with an error, or by a panic, which no caller recovers from.
pub data Result {ℓ} (A : Type ℓ) : Type ℓ where
  ok : A → Result A
  err : Error → Result A
  panic : Text → Result A

-- `fmt.Errorf`
abbrev pub errorf : Text → Error
errorf message = record { kind = other; message = message }

-- A document of `encoding/json`, as a value.
mutual
  pub data Json : Type 0 where
    null : Json
    boolean : Bool → Json
    number : ℤ → Json
    text : Text → Json
    array : Items → Json
    object : Fields → Json

  pub data Items : Type 0 where
    no_items : Items
    item : Json → Items → Items

  pub data Fields : Type 0 where
    no_fields : Fields
    field : Text → Json → Fields → Fields

-- What a file holds: bytes, or the document that `json.MarshalIndent` printed into it.
pub data Content : Type 0 where
  bytes : Text → Content
  document : Json → Content

pub record FileStat : Type 0 where
  pub size : ℕ
  pub mod_time : Instant
  pub is_dir : Bool

pub record DirEntry : Type 0 where
  pub name : Text
  pub is_dir : Bool

-- The end of a command: its outputs, and the error of `cmd.Run` if it failed.
pub record Exit : Type 0 where
  pub stdout : Text
  pub stderr : Text
  pub failure : Option Text

pub data Call : Type 0 where
  -- A program, its arguments and its standard input.
  run_command : Text → List Text → Option Content → Call
  stat : Text → Call
  open_file : Text → Call
  read_file : Text → Call
  -- A file, its mode and its content: it is created or truncated.
  write_file : Text → ℕ → Content → Call
  -- `O_CREATE|O_EXCL`
  create_exclusive : Text → Call
  -- A file is opened for lines at its end, and one is written.
  open_append : Text → Call
  append : Text → Text → Call
  mkdir_all : Text → Call
  chmod : Text → Call
  read_dir : Text → Call
  entry_info : Text → Call
  remove : Text → Call
  remove_all : Text → Call
  mkdir_temp : Text → Call
  now : Call
  -- A wait of the polling interval, cut short if the context is cancelled.
  wait : Call
  process_id : Call
  find_process : ℤ → Call
  signal_zero : ℤ → Call
  http_post : Text → Json → Call
  get_env : Text → Call
  home_dir : Call
  hostname : Call
  -- The path of the program, and the name of the user.
  executable : Call
  current_user : Call
  -- Whether the standard output is a character device.
  output_is_terminal : Call
  print : Text → Call
  -- A document is printed with indentation.
  print_json : Json → Call
  read_line : Call

-- Go's `(value, err)`
abbrev pub Answer {ℓ} : Type ℓ → Type ℓ
Answer A = Error ⊎ A

abbrev pub Reply : Call → Type 0
Reply (run_command bin args stdin) = Exit
Reply (stat path) = Answer FileStat
Reply (open_file path) = Answer (Unit {0})
Reply (read_file path) = Answer Content
Reply (write_file path mode content) = Answer (Unit {0})
Reply (create_exclusive path) = Answer (Unit {0})
Reply (mkdir_all path) = Answer (Unit {0})
Reply (chmod path) = Answer (Unit {0})
Reply (read_dir path) = Answer (List DirEntry)
Reply (entry_info path) = Answer FileStat
Reply (remove path) = Answer (Unit {0})
Reply (remove_all path) = Answer (Unit {0})
Reply (mkdir_temp prefix) = Answer Text
Reply now = Instant
Reply wait = Answer (Unit {0})
Reply process_id = ℕ
Reply (find_process pid) = Answer (Unit {0})
Reply (signal_zero pid) = Answer (Unit {0})
Reply (http_post url body) = Answer ℕ
Reply (get_env name) = Text
Reply home_dir = Answer Text
Reply hostname = Answer Text
Reply executable = Answer Text
Reply current_user = Answer Text
Reply (open_append path) = Answer (Unit {0})
Reply (append path line) = Answer (Unit {0})
Reply output_is_terminal = Answer Bool
Reply (print line) = Unit
Reply (print_json j) = Answer (Unit {0})
Reply read_line = Answer Text

-- What is not the program's own: the answers, the digests and sizes, the compression and the JSON syntax.
pub record Platform : Type 0 where
  pub answer : List Call → (c : Call) → Reply c
  pub sha256 : Content → Text
  pub md5 : Content → Text
  pub size_of : Content → ℕ
  pub gzip : Content → Text
  -- The error of opening the stream, or what reading it to the end gives.
  pub gunzip : Content → Answer (Answer Text)
  -- `%.1f` of the quotient of two numbers as `float64`.
  pub one_decimal : ℕ → ℕ → Text
  -- The syntax of JSON text that another program printed.
  pub parse_json : Text → Answer Json

-- The log has the newest request first.
pub record World : Type 0 where
  pub platform : Platform
  pub log : List Call

abbrev pub M {ℓ} : Type ℓ → Type ℓ
M A = World → Result A × World

abbrev pub continue {ℓ κ} :
    {A : Type ℓ} {B : Type κ} → Result A × World → (A → M B) → Result B × World
continue (ok a, w) f = f a w
continue (err e, w) f = (err e, w)
continue (panic t, w) f = (panic t, w)

-- A computation that succeeds succeeded in each of its steps.
pub continue-ok {ℓ κ} :
    {A : Type ℓ} {B : Type κ} (r : Result A × World) (f : A → M B) {b : B} {w' : World}
    → continue r f ≡ (ok b, w')
    → (a : A) × (w1 : World) × (r ≡ (ok a, w1)) × (f a w1 ≡ (ok b, w'))
continue-ok (ok a, w1) f h = (a, w1, refl, h)
continue-ok (err e, w1) f h = cc h
continue-ok (panic t, w1) f h = cc h

infixl 5 ◌>>=◌ ◌>>◌
unfoldable pub ◌>>=◌ {ℓ κ} : {A : Type ℓ} {B : Type κ} → M A → (A → M B) → M B
◌>>=◌ m f w = continue (m w) f

abbrev pub ◌>>◌ {ℓ κ} : {A : Type ℓ} {B : Type κ} → M A → M B → M B
m >> k = m >>= λ _. k

unfoldable pub return {ℓ} : {A : Type ℓ} → A → M A
return a w = (ok a, w)

unfoldable pub throw {ℓ} : {A : Type ℓ} → Error → M A
throw e w = (err e, w)

abbrev pub fail {ℓ} : {A : Type ℓ} → Text → M A
fail message = throw (errorf message)

abbrev pub attempted {ℓ} : {A : Type ℓ} → Result A → Result (Answer A)
attempted (ok a) = ok (inr a)
attempted (err e) = ok (inl e)
attempted (panic t) = panic t

-- The error of a call as a value, for code that tests `err` and goes on.
unfoldable pub attempt {ℓ} : {A : Type ℓ} → M A → M (Answer A)
attempt m w = let (r, w') = m w in (attempted r, w')

pub Answer-cases {ℓ} :
    {A : Type ℓ} (a : Answer A) → ((e : Error) × (a ≡ inl e)) ⊎ ((v : A) × (a ≡ inr v))
Answer-cases (inl e) = inl (e, refl)
Answer-cases (inr v) = inr (v, refl)

abbrev pub to_result {ℓ} : {A : Type ℓ} → Answer A → Result A
to_result (inl e) = err e
to_result (inr a) = ok a

unfoldable pub lift {ℓ} : {A : Type ℓ} → Result A → M A
lift r w = (r, w)

-- `fmt.Errorf("<prefix>%w<suffix>", err)` on an error.
abbrev pub wrapped {ℓ} : {A : Type ℓ} → Text → Text → Result A → Result A
wrapped prefix suffix (ok a) = ok a
wrapped prefix suffix (err e) = err (errorf (prefix ++ (e.message ++ suffix)))
wrapped prefix suffix (panic t) = panic t

unfoldable pub wrap {ℓ} : {A : Type ℓ} → Text → M A → M A
wrap prefix m w = let (r, w') = m w in (wrapped prefix [] r, w')

unfoldable pub wrap_around {ℓ} : {A : Type ℓ} → Text → Text → M A → M A
wrap_around prefix suffix m w = let (r, w') = m w in (wrapped prefix suffix r, w')

-- A deferred call, whose own error is dropped: it is made whatever the result was.
unfoldable pub finally {ℓ κ} : {A : Type ℓ} {B : Type κ} → M A → M B → M A
finally m cleanup w = let (r, w') = m w in let (_, w'') = cleanup w' in (r, w'')

-- A request whose reply is a value, and one whose reply is a result.
unfoldable pub perform : (c : Call) → M (Reply c)
perform c w = (ok (w.platform.answer w.log c), record w { log = c ∷ w.log })

unfoldable pub ask {ℓ} : {A : Type ℓ} → (c : Call) → (Reply c → Result A) → M A
ask c read w = (read (w.platform.answer w.log c), record w { log = c ∷ w.log })

-- `json.Unmarshal` into a value, before any field is decoded.
unfoldable pub unmarshal : Content → M Json
unmarshal (document j) w = (ok j, w)
unmarshal (bytes t) w = (to_result (w.platform.parse_json t), w)

unfoldable pub platform {ℓ} : {A : Type ℓ} → (Platform → A) → M A
platform f w = (ok (f w.platform), w)

-- Names the combinators on one `unfolding` line, for tests and for proofs about results.
unfoldable pub monad : Unit {0}
unfolding ◌>>=◌ return throw attempt lift wrap wrap_around finally perform ask unmarshal platform
monad = tt
