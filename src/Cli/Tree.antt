-- ===== src/Cli/Tree.antt =====
-- internal/cli/tree.go
use dockvault.Common.{
  Bool, true, false, not, List, [], ◌∷◌, ◌++◌, ◌&&◌, ◌==◌, Text, codes, ◌=t◌, null, split, trim, ℤ,
  pos, text_lt, sort_by, if◌then◌else◌,
}
use dockvault.Effects.{
  Json, text, number, boolean, array, object, Items, no_items, item, no_fields, field, M, ◌>>=◌,
  ◌>>◌, return, fail, lift, platform, ask, to_result, print_json,
}
use dockvault.Rclone
use dockvault.Rclone.{LsjsonEntry}
use dockvault.Utils.Selectors.{say}
use dockvault.Workspace.Paths.{home}
use dockvault.Workspace.Config.{load_config}
use dockvault.Cli.Session.{Global, configured_remote}
use dockvault.Cli.Restore.{size_text}
use dockvault.Cli.Scan.{bad_output}

-- A `treeNode`: whether it is a directory, its size and time, and its children by name.
mutual
  pub data TreeNode : Type 0 where
    node : Bool → ℤ → Text → Children → TreeNode

  pub data Children : Type 0 where
    no_children : Children
    child : Text → TreeNode → Children → Children

unfoldable pub fresh : TreeNode
fresh = node false (pos 0) [] no_children

-- The child of a name is changed, or added.
unfoldable pub update : Text → (TreeNode → TreeNode) → Children → Children
unfolding fresh
update name f no_children = child name (f fresh) no_children
update name f (child m n rest) =
    let later = update name f rest in if m =t name then child m (f n) rest else child m n later

-- The last part has the data of the entry; a part before it is a directory.
unfoldable pub marked : LsjsonEntry → List Text → TreeNode → TreeNode
marked e [] (node d s t cs) = node e.is_dir e.size e.mod_time cs
marked e (p ∷ ps) (node d s t cs) = node true s t cs

-- The loop over the parts of a path: an empty part is passed over.
unfoldable pub insert_parts : LsjsonEntry → List Text → TreeNode → TreeNode
insert_parts e [] n = n
insert_parts e (part ∷ parts) (node d s t cs) =
    if null part
    then insert_parts e parts (node d s t cs)
    else node d s t (update part (λ n. insert_parts e parts (marked e parts n)) cs)

unfoldable pub parts_of : LsjsonEntry → List Text
parts_of e = split (trim (λ c. c == b'/') e.path) b'/'

unfoldable pub insert_all : List LsjsonEntry → TreeNode → TreeNode
insert_all [] n = n
insert_all (e ∷ es) n = insert_all es (insert_parts e (parts_of e) n)

unfoldable pub build_tree : List LsjsonEntry → TreeNode
build_tree entries = insert_all entries (node true (pos 0) [] no_children)

-- The line of a child without its branch; sizes are those of files only.
unfoldable pub line_of : Bool → Text → TreeNode → M Text
line_of detailed name (node d s t cs) =
    if detailed && not d
    then (do
      r ← platform (λ p. size_text p.one_decimal s)
      size ← lift r
      return (name ++ (codes "  (" ++ (size ++ (codes ", " ++ (t ++ codes ")"))))))
    else return name

-- What prints a child behind a branch, and what is below it behind a prefix.
abbrev pub Printer : Type 0
Printer = Text × (Text → Text → M (Unit {0}))

unfoldable pub named_before : Printer → Printer → Bool
named_before a b = text_lt a.0 b.0

unfoldable pub run_printers : Text → List Printer → M (Unit {0})
run_printers prefix [] = return tt
run_printers prefix ((name, print) ∷ ps) =
    (if null ps
      then print (prefix ++ codes "└── ") (prefix ++ codes "    ")
      else print (prefix ++ codes "├── ") (prefix ++ codes "│   "))
    >> run_printers prefix ps

unfoldable mutual
  pub printers : Bool → Children → List Printer
  printers detailed no_children = []
  printers detailed (child name n rest) =
      (
        name,
        λ branch prefix. do
          line ← line_of detailed name n
          say (branch ++ line)
          print_tree detailed n prefix,
      )
      ∷ printers detailed rest

  -- A node without children prints nothing.
  pub print_tree : Bool → TreeNode → Text → M (Unit {0})
  print_tree detailed (node d s t cs) prefix =
      run_printers prefix (sort_by named_before (printers detailed cs))

unfoldable pub tree_entry_json : LsjsonEntry → Json
tree_entry_json e = object (
    field (codes "Path") (text e.path) (
      field (codes "Name") (text e.name) (
        field (codes "Size") (number e.size) (
          field (codes "ModTime") (text e.mod_time)
            (field (codes "IsDir") (boolean e.is_dir) no_fields)))))

unfoldable pub tree_items : List LsjsonEntry → Items
tree_items [] = no_items
tree_items (e ∷ es) = item (tree_entry_json e) (tree_items es)

unfoldable pub show_tree : Text → Bool → List LsjsonEntry → M (Unit {0})
show_tree root detailed [] = say (root ++ codes " (empty)")
show_tree root detailed (e ∷ es) = do say root; print_tree detailed (build_tree (e ∷ es)) []

-- The root is `/` unless one is given.
unfoldable pub root_of : List Text → Text
root_of [] = codes "/"
root_of (arg ∷ args) = arg

unfoldable pub run_tree : Global → Bool → Text → List Text → M (Unit {0})
run_tree g detailed output args =
    if not (output =t codes "json") && not (output =t codes "text")
    then fail (bad_output output)
    else (do
      let root = root_of args
      ws ← home g.home
      cfg ← load_config ws
      rc ← configured_remote g cfg
      entries ← Rclone.list_tree rc root
      if output =t codes "json"
          then ask (print_json (array (tree_items entries))) to_result
          else show_tree root detailed entries)
