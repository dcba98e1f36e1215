-- ===== src/Common/Test.antt =====
-- Tests of the text and time helpers.
use mathlib.Core.Path.{◌≡◌, refl}
use mathlib.Core.Option.{some}
use dockvault.Common.Strings.{codes}
use dockvault.Common.Paths.{path_join, path_base}
use dockvault.Common.Instants.{format_rfc3339, parse_rfc3339}
use mathlib.Core.List.{[], ◌∷◌}
use mathlib.Core.Option
use mathlib.Core.Option.{Option}

join_test :
    path_join (codes "/stage/h/pg/job/" ∷ codes "a.tar" ∷ []) ≡ codes "/stage/h/pg/job/a.tar"
unfolding path_join
join_test = refl

base_test : path_base (codes "/tmp/x/a.tar.gz") ≡ codes "a.tar.gz"
unfolding path_base
base_test = refl

time_test :
    Option.map format_rfc3339 (parse_rfc3339 (codes "2026-02-28T23:59:59.25-02:30"))
    ≡ some (codes "2026-03-01T02:29:59Z")
unfolding parse_rfc3339 format_rfc3339
time_test = refl
