-- ===== src/Logger.antt =====
-- internal/logger/logger.go: lines to the terminal, and to a file if there is one. Standard error is
-- printed like standard output, and the lock of the logger makes one line one step.
use dockvault.Common.{
  Bool, false, not, Option, none, some, ◌∷◌, ◌++◌, inl, inr, Text, codes, null, format_rfc3339,
  if◌then◌else◌,
}
use dockvault.Effects.{
  Answer, M, ◌>>=◌, ◌>>◌, return, wrap, attempt, ask, perform, to_result, now, get_env, chmod,
  open_append, append, output_is_terminal, print,
}

pub data Level : Type 0 where
  info success warn error : Level

pub record Logger : Type 0 where
  pub verbose : Bool
  pub file : Option Text

unfoldable pub new : Text → M Logger
new log_file = if null log_file then return (record { verbose = false; file = none }) else (do
  wrap (codes "opening log file: ") (ask (open_append log_file) to_result)
  attempt (ask (chmod log_file) to_result)
  return (record { verbose = false; file = some log_file }))

unfoldable pub tag : Level → Text
tag info = codes "INFO"
tag success = codes "OK"
tag warn = codes "WARN"
tag error = codes "ERROR"

unfoldable pub has_device : Answer Bool → Bool
has_device (inl e) = false
has_device (inr b) = b

unfoldable pub is_terminal : M Bool
is_terminal = do
  env ← perform (get_env (codes "NO_COLOR"))
  if not (null env)
      then return false
      else (do r ← attempt (ask output_is_terminal to_result); return (has_device r))

-- The escape character and its code.
unfoldable pub escape : Text → Text
escape code = 27 ∷ code

unfoldable pub color : Level → Text
color info = escape (codes "[36m")
color success = escape (codes "[32m")
color warn = escape (codes "[33m")
color error = escape (codes "[31m")

unfoldable pub colorize : Level → Text → M Text
colorize level plain = do
  on ← is_terminal
  return (if on then color level ++ (plain ++ escape (codes "[0m")) else plain)

unfoldable pub write_line : Option Text → Text → M (Unit {0})
write_line none plain = return tt
write_line (some file) plain = do attempt (ask (append file plain) to_result); return tt

unfoldable pub log : Logger → Level → Text → M (Unit {0})
log l level message = do
  t ← perform now
  let plain =
      codes "["
      ++ (format_rfc3339 t ++ (codes "] " ++ (tag level ++ (codes " " ++ (message ++ codes "\n")))))
  line ← colorize level plain
  perform (print line)
  write_line l.file plain

-- A line of `Debug` is written only if the logger is verbose.
unfoldable pub debug : Logger → Text → M (Unit {0})
debug l message = if l.verbose then log l info message else return tt
