-- ===== src/Clustering/Manager.antt =====
-- The manager of the processes, of which there is at most one for each cluster
-- (clustering/manager.go; `Update`, `Cancel` and `Pause` of clustering/process.go). A cluster is named
-- by the text of its namespaced name. The mutex makes each operation one step.
pub mod Refinement
mod Tests
use moco.Prelude.{
  String, Bool, true, false, Option, none, some, List, [], ◌∷◌, ◌++◌, map, if◌then◌else◌,
}
use moco.Prelude.Dict.{Dict, lookup, insert, erase}

-- The channel of a process holds one origin; `cancelled` says that its context is.
pub record ManagerProcess : Type 0 where
  pub pending : Option String
  pub cancelled : Bool
  pub paused : Bool

-- `retired` holds the processes that have been taken out of the map: their goroutines end by
-- themselves.
pub record ClusterManager : Type 0 where
  pub processes : Dict ManagerProcess
  pub retired : List ManagerProcess
  pub stopped : Bool

abbrev pub new_process : ManagerProcess
new_process = record { pending = none; cancelled = false; paused = false }

-- `Update` of a process drops the origin where one is pending.
abbrev pending_after : String → Option String → Option String
pending_after origin none = some origin
pending_after origin (some o) = some o

unfoldable pub notify : String → ManagerProcess → ManagerProcess
notify origin p = record p { pending = pending_after origin p.pending }

unfoldable pub cancel : ManagerProcess → ManagerProcess
cancel p = record p { cancelled = true }

unfoldable pub pause : ManagerProcess → ManagerProcess
pause p = record p { paused = true; cancelled = true }

-- `update` behind its test of `stopped`, with the entry of the map.
unfoldable pub update_entry :
    String → Bool → String → Option ManagerProcess → ClusterManager → ClusterManager
update_entry key no_start origin (some p) m = record m {
  processes = insert key (notify origin p) m.processes;
}
update_entry key true origin none m = m
update_entry key false origin none m = record m {
  processes = insert key (notify origin new_process) m.processes;
}

unfoldable pub update_unless : Bool → String → Bool → String → ClusterManager → ClusterManager
update_unless true key no_start origin m = m
update_unless false key no_start origin m =
    update_entry key no_start origin (lookup key m.processes) m

unfoldable pub update : String → Bool → String → ClusterManager → ClusterManager
update key no_start origin m = update_unless m.stopped key no_start origin m

-- The process leaves the map, ended by `how`.
unfoldable pub retire :
    (ManagerProcess → ManagerProcess)
    → String
    → Option ManagerProcess
    → ClusterManager
    → ClusterManager
retire how key none m = m
retire how key (some p) m = record m {
  processes = erase key m.processes;
  retired = how p ∷ m.retired;
}

unfoldable pub stop : String → ClusterManager → ClusterManager
stop key m = retire cancel key (lookup key m.processes) m

unfoldable pub pause_cluster : String → ClusterManager → ClusterManager
pause_cluster key m = retire pause key (lookup key m.processes) m

unfoldable pub cancel_all : Dict ManagerProcess → List ManagerProcess → List ManagerProcess
cancel_all [] done = done
cancel_all (e ∷ rest) done = cancel e.1 ∷ cancel_all rest done

unfoldable pub stop_all : ClusterManager → ClusterManager
stop_all m = record { processes = []; retired = cancel_all m.processes m.retired; stopped = true }

-- The operations that other goroutines call, one after the other.
pub data Request : Type 0 where
  update_request : String → Bool → String → Request
  stop_request pause_request : String → Request
  stop_all_request : Request

unfoldable pub serve : Request → ClusterManager → ClusterManager
serve (update_request key no_start origin) m = update key no_start origin m
serve (stop_request key) m = stop key m
serve (pause_request key) m = pause_cluster key m
serve stop_all_request m = stop_all m

unfoldable pub serve_all : List Request → ClusterManager → ClusterManager
serve_all [] m = m
serve_all (r ∷ rs) m = serve_all rs (serve r m)

abbrev pub new_manager : ClusterManager
new_manager = record { processes = []; retired = []; stopped = false }
