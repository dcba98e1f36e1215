-- ===== src/Common/Paths.antt =====
-- Slash-separated paths: `path.Clean`, `path.Join` and `path.Base` of Go (`filepath` is the same on Unix).
use Prim.Native.Nat.{ℕ}
use mathlib.Core.Bool.{Bool, true, false, ◌||◌}
use mathlib.Core.List.{List, [], ◌∷◌, ◌++◌, reverse}
use dockvault.Common.Tests.{◌==◌, if◌then◌else◌}
use dockvault.Common.Lists.{null, keep}
use dockvault.Common.Strings.{Text, codes, ◌=t◌, split, join, has_prefix, trim_right}

abbrev pub slash : ℕ
slash = b'/'

-- One component against the stack of those kept so far, the last one on top.
push_component : Bool → Text → List Text → List Text
push_component rooted c [] =
    if null c || (c =t codes ".")
    then []
    else if c =t codes ".."
    then (if rooted then [] else c ∷ [])
    else c ∷ []
push_component rooted c (top ∷ stack) =
    if null c || (c =t codes ".")
    then top ∷ stack
    else if c =t codes ".."
    then (if top =t codes ".." then c ∷ top ∷ stack else stack)
    else c ∷ top ∷ stack

walk_components : Bool → List Text → List Text → List Text
walk_components rooted [] stack = stack
walk_components rooted (c ∷ cs) stack = walk_components rooted cs (push_component rooted c stack)

-- `path.Clean`
unfoldable pub clean : Text → Text
unfolding push_component walk_components split join has_prefix ◌=t◌
clean s =
    let rooted = has_prefix s (codes "/") in
    let body = join (reverse (walk_components rooted (split s slash) [])) (codes "/") in
    if rooted then codes "/" ++ body else if null body then codes "." else body

-- `path.Join`: empty elements are left out.
unfoldable pub path_join : List Text → Text
unfolding clean keep join
path_join elems =
    let full = keep (λ e. if null e then false else true) elems in
    if null full then [] else clean (join full (codes "/"))

last_component : Text → List Text → Text
last_component c [] = c
last_component c (d ∷ ds) = last_component d ds

last_of : List Text → Text
unfolding last_component
last_of [] = []
last_of (c ∷ cs) = last_component c cs

-- `path.Base`
unfoldable pub path_base : Text → Text
unfolding last_of trim_right split
path_base s =
    if null s
    then codes "."
    else let stripped = trim_right (λ c. c == slash) s in
      if null stripped then codes "/" else last_of (split stripped slash)
