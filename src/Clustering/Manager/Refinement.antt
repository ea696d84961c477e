-- ===== src/Clustering/Manager/Refinement.antt =====
-- What the manager promises to its callers: for each cluster, whether it has a process and what
-- that process has been told (clustering/manager.go). The order of the map is forgotten.
use mathlib.Core.Path.{fun_ext}
use text.Mathlib.TextEquality.{eq_iff}
use moco.Prelude.{
  String, ◌≡◌, refl, ap, ◌∙◌, Bool, true, false, ◌==◌, Option, none, some, List, [], ◌∷◌,
  if◌then◌else◌, Bool-cases, inl, inr,
}
use moco.Prelude.Dict.{lookup, lookup-insert, lookup-erase}
use moco.Clustering.Manager.{
  ManagerProcess, ClusterManager, new_process, notify, cancel, pause, update_entry, update_unless,
  update, retire, stop, pause_cluster, stop_all, Request, update_request, stop_request,
  pause_request, stop_all_request, serve, serve_all,
}

-- The process of each cluster.
abbrev pub View : Type 0
View = String → Option ManagerProcess

-- What one request leaves of the entry of a cluster, from the entry alone.
abbrev told : Bool → String → Option ManagerProcess → Option ManagerProcess
told no_start origin (some p) = some (notify origin p)
told true origin none = none
told false origin none = some (notify origin new_process)

abbrev pub answer : Request → Bool × View → Bool × View
answer (update_request key no_start origin) (true, view) = (true, view)
answer (update_request key no_start origin) (false, view) =
    (false, λ k. if key == k then told no_start origin (view key) else view k)
answer (stop_request key) (stopped, view) = (stopped, λ k. if key == k then none else view k)
answer (pause_request key) (stopped, view) = (stopped, λ k. if key == k then none else view k)
answer stop_all_request (stopped, view) = (true, λ k. none)

abbrev pub answer_all : List Request → Bool × View → Bool × View
answer_all [] v = v
answer_all (r ∷ rs) v = answer_all rs (answer r v)

abbrev pub view_of : ClusterManager → Bool × View
view_of m = (m.stopped, λ k. lookup k m.processes)

same_entry :
    (key : String) (view : View) (o : Option ManagerProcess)
    → view key ≡ o
    → (k : String) → view k ≡ (if key == k then o else view k)
same_entry key view o e k = elim (Bool-cases (key == k)) [
  | inl t ↦ rw (t, ← (eq_iff key k).0 t) e
  | inr f ↦ rw f refl
]

update_entry-told :
    (key : String) (no_start : Bool) (origin : String) (m : ClusterManager)
    (o : Option ManagerProcess)
    → lookup key m.processes ≡ o
    → (k : String)
    → lookup k (update_entry key no_start origin o m).processes
      ≡ (if key == k then told no_start origin o else lookup k m.processes)
unfolding update_entry
update_entry-told key no_start origin m (some p) e k = lookup-insert k key _ m.processes
update_entry-told key true origin m none e k = same_entry key (λ x. lookup x m.processes) none e k
update_entry-told key false origin m none e k = lookup-insert k key _ m.processes

retire-none :
    (how : ManagerProcess → ManagerProcess) (key : String) (m : ClusterManager)
    (o : Option ManagerProcess)
    → lookup key m.processes ≡ o
    → (k : String)
    → lookup k (retire how key o m).processes ≡ (if key == k then none else lookup k m.processes)
unfolding retire
retire-none how key m none e k = same_entry key (λ x. lookup x m.processes) none e k
retire-none how key m (some p) e k = lookup-erase k key m.processes

retire-stopped :
    (how : ManagerProcess → ManagerProcess) (key : String) (m : ClusterManager)
    (o : Option ManagerProcess)
    → (retire how key o m).stopped ≡ m.stopped
unfolding retire
retire-stopped how key m none = refl
retire-stopped how key m (some p) = refl

update_entry-stopped :
    (key : String) (no_start : Bool) (origin : String) (o : Option ManagerProcess)
    (m : ClusterManager)
    → (update_entry key no_start origin o m).stopped ≡ m.stopped
unfolding update_entry
update_entry-stopped key no_start origin (some p) m = refl
update_entry-stopped key true origin none m = refl
update_entry-stopped key false origin none m = refl

module _ (m : ClusterManager) where
  pair_eq :
      (m' : ClusterManager) (b : Bool) (view : View)
      → m'.stopped ≡ b
      → ((k : String) → lookup k m'.processes ≡ view k)
      → view_of m' ≡ (b, view)
  pair_eq m' b view e h = ap (λ x. (x, λ k. lookup k m'.processes)) e ∙ ap (λ v. (b, v)) (fun_ext h)

  retire-view :
      (how : ManagerProcess → ManagerProcess) (key : String)
      → view_of (retire how key (lookup key m.processes) m)
        ≡ (m.stopped, λ k. if key == k then none else lookup k m.processes)
  retire-view how key =
      pair_eq (retire how key (lookup key m.processes) m) _ _ (retire-stopped how key m _)
        (retire-none how key m _ refl)

  update_unless-view :
      (b : Bool) (key : String) (no_start : Bool) (origin : String)
      → m.stopped ≡ b
      → view_of (update_unless b key no_start origin m)
        ≡ answer (update_request key no_start origin) (b, λ k. lookup k m.processes)
  unfolding update_unless
  update_unless-view true key no_start origin e = ap (λ x. (x, λ k. lookup k m.processes)) e
  update_unless-view false key no_start origin e =
      pair_eq (update_entry key no_start origin (lookup key m.processes) m) _ _
        (update_entry-stopped key no_start origin _ m ∙ e)
        (update_entry-told key no_start origin m _ refl)

serve-answer : (r : Request) (m : ClusterManager) → view_of (serve r m) ≡ answer r (view_of m)
unfolding serve update stop pause_cluster stop_all lookup
serve-answer (update_request key no_start origin) m =
    update_unless-view m m.stopped key no_start origin refl
serve-answer (stop_request key) m = retire-view m cancel key
serve-answer (pause_request key) m = retire-view m pause key
serve-answer stop_all_request m = refl

-- For any requests, served one after the other, the manager refines a map from clusters to
-- processes: an update changes the entry of its cluster alone, and starts a process only where it
-- may and none is there; a stop or a pause empties the entry of its cluster alone; `StopAll`
-- empties all entries for good.
pub serve_all-answer_all :
    (rs : List Request) (m : ClusterManager) → view_of (serve_all rs m) ≡ answer_all rs (view_of m)
unfolding serve_all
serve_all-answer_all [] m = refl
serve_all-answer_all (r ∷ rs) m =
    serve_all-answer_all rs (serve r m) ∙ ap (answer_all rs) (serve-answer r m)
