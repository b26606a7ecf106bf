-- ===== src/Linkage/TaskDistributor.antt =====
-- meio/src/linkage/task_distributor.rs. A `TaskAddress` is the id of its task.
use meio.Prelude.{ℕ, Option, List, [], map, length, ℕ_discrete}
use meio.Prelude.Map
use meio.Ids.{Ident}
use meio.Lifecycle.{Send, stop_signal}

pub record TaskDistributor : Type 0 where
  pub tasks : List (Ident × Ident)

unfoldable pub new : TaskDistributor
new = record { tasks = [] }

unfoldable pub insert : TaskDistributor → Ident → TaskDistributor
insert d addr = record { tasks = Map.insert ℕ_discrete addr addr d.tasks }

unfoldable pub get : TaskDistributor → Ident → Option Ident
get d id = Map.lookup ℕ_discrete id d.tasks

unfoldable pub remove : TaskDistributor → Ident → TaskDistributor × Option Ident
unfolding get
remove d id = (record { tasks = Map.remove ℕ_discrete id d.tasks }, get d id)

-- An error of `stop` is only logged, so the loop reaches every task.
unfoldable pub stop_all : {P : Type 0} → TaskDistributor → List (Send P)
stop_all d = map stop_signal (Map.values d.tasks)

unfoldable pub len : TaskDistributor → ℕ
len d = length d.tasks
