-- ===== src/Tests/HookTests.antt =====
-- The options of the queries and the mutations at concrete arguments.
use dockstack.Prelude.{false, some, All, codes}
use dockstack.Api.Request.{present}
use dockstack.Api.Queries.Coherence.{all_queries-IsCoherent, IsCoherent, all_queries, tuning}

all_queries-IsCoherent_example :
    All IsCoherent (all_queries (codes "web") (some (tuning (present false))))
all_queries-IsCoherent_example = all_queries-IsCoherent (codes "web") (present false)
