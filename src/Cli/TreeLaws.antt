-- ===== src/Cli/TreeLaws.antt =====
-- No entry of a listing is missing from the tree.
use dockvault.Common.{
  Bool, true, false, Option, none, some, List, [], ◌∷◌, Text, ◌=t◌, null, if◌then◌else◌,
}
use dockvault.Rclone.{LsjsonEntry}
use dockvault.Cli.Tree.{TreeNode, node, Children, no_children, child, fresh, marked, insert_parts}

abbrev pub children_of : TreeNode → Children
children_of (node d s t cs) = cs

abbrev pub find : Text → Children → Option TreeNode
find name no_children = none
find name (child m n rest) = if m =t name then some n else find name rest

-- A path leads to a node of the tree; an empty part stays where it is.
abbrev pub is_present : List Text → TreeNode → Bool
is_present [] n = true
is_present (p ∷ ps) n =
    if null p
    then is_present ps n
    else elim (find p (children_of n)) [ none ↦ false | some c ↦ is_present ps c ]

abbrev or_fresh : Option TreeNode → TreeNode
or_fresh none = fresh
or_fresh (some n) = n

-- What an insertion does behind its first part.
abbrev below : LsjsonEntry → List Text → TreeNode → TreeNode
below e ps n = insert_parts e ps (marked e ps n)
