-- ===== src/Conductor/Plans/Owned.antt =====
-- The tasks that are created for an instance belong to it.
use coriolis.Prelude.{
  ℕ, zero, suc, Bool, true, false, if◌then◌else◌, All, List, [], ◌∷◌, ◌++◌, Option, none, some, ◌≡◌,
  refl,
}
use coriolis.Constants.{TaskType}
use coriolis.Action.{Action, Error, Result, ok, err, pure, or_raise, continue, ◌>>=◌}
use coriolis.Db.{Task}
use coriolis.Conductor.Create.{create_task}
use coriolis.Conductor.Plans.{
  call_create, execute_replica_tasks, os_morphing_tasks, deploy_replica_instances,
  delete_replica_disks, update_replica,
}
use coriolis.Conductor.Plans.Migration.{sync_tasks, migrate_instances}
use coriolis.Conductor.Plans.Info.{ExecutionKind, create_tasks}

module _ (i : ℕ) where
  abbrev pub IsOwned : Task → Type 0
  IsOwned t = t.instance_id ≡ i

  pub record Owns {A : Type 0} (m : Action (List Task) A) : Type 0 where
    pub kept : (ts : List Task) → All IsOwned ts → All IsOwned (m ts).1

  owned-append :
      (ts : List Task) (t : Task) → All IsOwned ts → IsOwned t → All IsOwned (ts ++ t ∷ [])
  owned-append [] t h e = (e, tt)
  owned-append (u ∷ ts) t h e = (h.0, owned-append ts t h.1 e)

  module _ {A B : Type 0} where
    Owns-continue :
        (r : Result A) (f : A → Action (List Task) B) (ts : List Task)
        → All IsOwned ts
        → ((a : A) → Owns (f a))
        → All IsOwned (continue r f ts).1
    Owns-continue (ok a) f ts h k = (k a).kept ts h
    Owns-continue (err e) f ts h k = h

    Owns-bind :
        {m : Action (List Task) A} {f : A → Action (List Task) B}
        → Owns m
        → ((a : A) → Owns (f a))
        → Owns (m >>= f)
    unfolding ◌>>=◌
    Owns-bind {m = m} {f = f} o k = record {
      kept = λ ts h. Owns-continue (m ts).0 f (m ts).1 (o.kept ts h) k;
    }

  module _ {A : Type 0} where
    Owns-pure : {a : A} → Owns (pure a)
    Owns-pure = record { kept = λ ts h. h }

    Owns-or_raise : (x : Option A) (e : Error) → Owns (or_raise x e)
    Owns-or_raise none e = record { kept = λ ts h. h }
    Owns-or_raise (some a) e = record { kept = λ ts h. h }

    Owns-if : (b : Bool) {m n : Action (List Task) A} → Owns m → Owns n → Owns (if b then m else n)
    Owns-if true o p = o
    Owns-if false o p = p

  Owns-create : (ty : TaskType) (deps : List ℕ) (a b : Bool) → Owns (call_create i ty deps a b)
  unfolding call_create create_task
  Owns-create ty deps a b = record { kept = λ ts h. owned-append ts _ h refl }

  ruleset owning = (Owns-bind, Owns-pure, Owns-or_raise, Owns-if, Owns-create)

  Owns-update : Owns (update_replica i)
  unfolding update_replica
  Owns-update = search (owning) depth 30

  Owns-delete : Owns (delete_replica_disks i)
  unfolding delete_replica_disks
  Owns-delete = search (owning) depth 30

  Owns-morphing : (b : Bool) (v d : ℕ) → Owns (os_morphing_tasks i b v d)
  unfolding os_morphing_tasks
  Owns-morphing true v d = search (owning) depth 30
  Owns-morphing false v d = search (owning) depth 30

  Owns-replica : (o d s : Bool) → Owns (execute_replica_tasks i o d s)
  unfolding execute_replica_tasks
  Owns-replica o d s = search (owning) depth 60

  Owns-deploy : (c k p f : Bool) → Owns (deploy_replica_instances i c k p f)
  unfolding deploy_replica_instances
  Owns-deploy c k p f = search (owning, Owns-morphing) depth 60

  Owns-sync : (n : ℕ) (s : Bool) (deps : List ℕ) → Owns (sync_tasks i n s deps)
  unfolding sync_tasks
  Owns-sync zero s deps = search (owning)
  Owns-sync (suc n) s deps = search (owning, Owns-sync n) depth 30

  Owns-migration : (o d p s k f : Bool) (n : ℕ) → Owns (migrate_instances i o d p s k f n)
  unfolding migrate_instances
  Owns-migration o d p s k f n = search (owning, Owns-morphing, Owns-sync) depth 80

  pub create_tasks-owned : (e : ExecutionKind) → All IsOwned (create_tasks i e []).1
  unfolding create_tasks
  create_tasks-owned (ExecutionKind.replica_execution o d s) = (Owns-replica o d s).kept [] tt
  create_tasks-owned (ExecutionKind.replica_deploy c k p f) = (Owns-deploy c k p f).kept [] tt
  create_tasks-owned (ExecutionKind.migration o d p s k f n) =
      (Owns-migration o d p s k f n).kept [] tt
  create_tasks-owned ExecutionKind.replica_disks_delete = Owns-delete.kept [] tt
  create_tasks-owned (ExecutionKind.replica_update updated) = Owns-update.kept [] tt
