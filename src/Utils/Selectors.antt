-- ===== src/Utils/Selectors.antt =====
-- internal/utils/selectors.go: the questions on the terminal. A prompt is printed as one piece of
-- output, and a line that is read holds its line break.
use dockvault.Common.{
  ℕ, suc, ◌-◌, Bool, Option, none, some, List, [], ◌∷◌, ◌++◌, ◌&&◌, ◌||◌, Text, codes, ◌=t◌, null,
  length, leb, ℤ, pos, negsuc, atoi, trim_space, to_lower, decimal, quoted, if◌then◌else◌,
}
use dockvault.Effects.{M, ◌>>=◌, ◌>>◌, return, fail, ask, perform, to_result, print, read_line}

unfoldable pub say : Text → M (Unit {0})
say t = perform (print t) >> return tt

unfoldable pub print_options : ℕ → List Text → M (Unit {0})
print_options n [] = return tt
print_options n (o ∷ os) =
    say (codes "  [" ++ (decimal n ++ (codes "] " ++ o))) >> print_options (suc n) os

-- The number that was typed, as an index.
unfoldable pub choice : ℕ → Option ℤ → Option ℕ
choice count none = none
choice count (some (negsuc n)) = none
choice count (some (pos n)) = if leb 1 n && leb n count then some (n - 1) else none

unfoldable pub chosen : ℕ → Option ℕ → M ℕ
chosen count none = fail (codes "enter a number between 1 and " ++ decimal count)
chosen count (some i) = return i

unfoldable pub select_one : Text → List Text → M ℕ
select_one prompt options = do
  say prompt
  print_options 1 options
  say (codes "> ")
  line ← ask read_line to_result
  chosen (length options) (choice (length options) (atoi (trim_space line)))

unfoldable pub is_yes : Bool → Text → Bool
is_yes default_yes line =
    if null line then default_yes else (line =t codes "y") || (line =t codes "yes")

unfoldable pub confirm : Text → Bool → M Bool
confirm prompt default_yes = do
  say (prompt ++ (if default_yes then codes " [Y/n] " else codes " [y/N] "))
  line ← ask read_line to_result
  return (is_yes default_yes (to_lower (trim_space line)))

unfoldable pub require_typed_confirmation : Text → M Bool
require_typed_confirmation word = do
  say (codes "Type " ++ (quoted word ++ codes " to confirm: "))
  line ← ask read_line to_result
  return (trim_space line =t word)
