-- ===== src/Minions/Requests/Guards.antt =====
-- The requests that a pool does not take, and what they leave behind.
use coriolis.Prelude.{
  Bool, Bool-cases, true, ◌||◌, is_empty, Option-cases, none, some, false, ◌⊎◌, ◌≡◌, refl, ap, sym,
  ◌∙◌, arith, inl, inr,
}
use coriolis.Action.{Error, err, ◌>>=◌, invalid_minion_pool_state}
use coriolis.Minions.{Pool, PoolStatus, minion_machines}
use coriolis.Cron.{unregister_jobs_with_prefix}
use coriolis.Minions.Updates.{Values}
use coriolis.Minions.Flows.{get_minion_pool_allocation_flow, get_minion_pool_deallocation_flow}
use coriolis.Minions.Requests.{
  Flow, Site, RequestEnv, is_deallocated, is_allocated, is_deallocatable, is_deletable,
  used_machines, allocate_minion_pool, deallocate_pool, deallocate_minion_pool, refresh_minion_pool,
  update_minion_pool, delete_minion_pool, PoolRequest, handle_request,
}

-- The statuses that a flow at work gives to a pool, and UNKNOWN.
abbrev pub is_busy : PoolStatus → Bool
is_busy PoolStatus.deallocated = false
is_busy PoolStatus.allocated = false
is_busy PoolStatus.error = false
is_busy _ = true

abbrev pub is_forced : PoolRequest → Bool
is_forced (PoolRequest.deallocate force) = force
is_forced _ = false

tests :
    (st : PoolStatus)
    → is_busy st ≡ true
    → (is_deallocated st ≡ false)
      × (is_allocated st ≡ false)
      × (is_deallocatable st ≡ false)
      × (is_deletable st ≡ false)
tests st h = ground arith

by_request :
    (env : RequestEnv) (r : PoolRequest) (s : Site) (p : Pool)
    → s.pool ≡ some p
    → is_forced r ≡ false
    → is_deallocated p.status ≡ false
    → is_allocated p.status ≡ false
    → is_deallocatable p.status ≡ false
    → is_deletable p.status ≡ false
    → handle_request env r s ≡ (err invalid_minion_pool_state, s)
unfolding handle_request allocate_minion_pool refresh_minion_pool delete_minion_pool
    deallocate_minion_pool deallocate_pool update_minion_pool ◌>>=◌
by_request env PoolRequest.allocate s p e f d a u x = rw (e, d) refl
by_request env PoolRequest.refresh s p e f d a u x = rw (e, a) refl
by_request env PoolRequest.delete s p e f d a u x = rw (e, x) refl
by_request env (PoolRequest.deallocate force) s p e f d a u x = rw (e, d, u, f) refl
by_request env (PoolRequest.update v) s p e f d a u x = rw (e, d) refl

-- A pool that is busy takes no request but a forced deallocation: each other one raises
-- InvalidMinionPoolState and changes nothing.
pub handle_request-busy :
    (env : RequestEnv) (r : PoolRequest) (s : Site) (p : Pool)
    → s.pool ≡ some p
    → is_busy p.status ≡ true
    → is_forced r ≡ false
    → handle_request env r s ≡ (err invalid_minion_pool_state, s)
unfolding handle_request
handle_request-busy env r s p e b f =
    let (d, a, u, x) = tests p.status b in by_request env r s p e f d a u x

-- A pool that has a machine in use is not deallocated unless this is forced: nothing changes.
pub deallocate_minion_pool-used :
    (env : RequestEnv) (s : Site) (p : Pool)
    → s.pool ≡ some p
    → is_empty (used_machines (minion_machines p.id s.machines)) ≡ false
    → (deallocate_minion_pool env false s).1 ≡ s
unfolding deallocate_minion_pool deallocate_pool ◌>>=◌
deallocate_minion_pool-used env s p e u = elim (Bool-cases (is_deallocated p.status)) [
  | inl d ↦ rw (e, d) refl
  | inr d ↦ elim (Bool-cases (is_deallocatable p.status)) [
    | inl a ↦ rw (e, d, a, u) refl
    | inr a ↦ rw (e, d, a) refl
  ]
]

allocate-unchanged :
    (env : RequestEnv) (s : Site) {e : Error}
    → (allocate_minion_pool env s).0 ≡ err e
    → (allocate_minion_pool env s).1 ≡ s
unfolding allocate_minion_pool ◌>>=◌
allocate-unchanged env s h = elim (Option-cases s.pool) [
  | inl e ↦ rw e refl
  | inr (p, e) ↦ elim (Bool-cases (is_deallocated p.status)) [
    | inr d ↦ rw (e, d) refl
    | inl d ↦
        let flow = Flow.pool_flow (get_minion_pool_allocation_flow (env.uuids p.minimum_minions)) in
        elim (Bool-cases (env.starts flow)) [
          | inl q ↦ absurd (let bad = rw (e, d) at h in let worse = rw q at bad in cc)
          | inr q ↦ rw (e, d) (rw q refl)
        ]
  ]
]

deallocate_pool-unchanged :
    (env : RequestEnv) (force : Bool) (s : Site) (p : Pool) {e : Error}
    → s.pool ≡ some p
    → (deallocate_pool env force p s).0 ≡ err e
    → (deallocate_pool env force p s).1 ≡ s
unfolding deallocate_pool ◌>>=◌
deallocate_pool-unchanged env force s p e h =
    elim (Bool-cases (is_deallocatable p.status || force)) [
      | inr d ↦ rw d refl
      | inl d ↦
          elim (Bool-cases (is_empty (used_machines (minion_machines p.id s.machines)) || force)) [
            | inr u ↦ rw (d, u) refl
            | inl u ↦
                let ms = minion_machines p.id s.machines in
                let flow = Flow.pool_flow (get_minion_pool_deallocation_flow ms) in
                elim (Bool-cases (env.starts flow)) [
                  | inl q ↦ absurd (let bad = rw (d, u) at h in let worse = rw q at bad in cc)
                  | inr q ↦ rw (d, u) (rw q (rw e refl))
                ]
          ]
    ]

deallocate-step :
    (env : RequestEnv) (force : Bool) (s : Site) (p : Pool)
    → s.pool ≡ some p
    → is_deallocated p.status ≡ false
    → deallocate_minion_pool env force s ≡ deallocate_pool env force p s
unfolding deallocate_minion_pool
deallocate-step env force s p e d = rw (e, d) refl

deallocate-unchanged :
    (env : RequestEnv) (force : Bool) (s : Site) {e : Error}
    → (deallocate_minion_pool env force s).0 ≡ err e
    → (deallocate_minion_pool env force s).1 ≡ s
unfolding deallocate_minion_pool
deallocate-unchanged env force s h = elim (Option-cases s.pool) [
  | inl e ↦ rw e refl
  | inr (p, e) ↦ elim (Bool-cases (is_deallocated p.status)) [
    | inl d ↦ rw (e, d) refl
    | inr d ↦
        let step = deallocate-step env force s p e d in
        rw step (deallocate_pool-unchanged env force s p e (ap (λ x. x.0) (sym step) ∙ h))
  ]
]

-- A deletion that raises has left all as it was, or has failed to delete the trust in the end.
delete-raised :
    (env : RequestEnv) (s : Site) {e : Error}
    → (delete_minion_pool env s).0 ≡ err e
    → ((delete_minion_pool env s).1 ≡ s)
      ⊎ (env.has_trust ≡ true)
        × (env.deletes_trust ≡ false)
        × ((delete_minion_pool env s).1
            ≡ record s { pool = none; jobs = unregister_jobs_with_prefix env.has_prefix s.jobs })
unfolding delete_minion_pool ◌>>=◌
delete-raised env s h = elim (Option-cases s.pool) [
  | inl e ↦ inl (rw e refl)
  | inr (p, e) ↦ elim (Bool-cases (is_deletable p.status)) [
    | inr d ↦ inl (rw (e, d) refl)
    | inl d ↦ elim (Bool-cases env.has_trust) [
      | inr t ↦ absurd (let bad = rw (e, d, t) at h in cc)
      | inl t ↦ elim (Bool-cases env.deletes_trust) [
        | inl q ↦ absurd (let bad = rw (e, d, t, q) at h in cc)
        | inr q ↦ inr (t, q, rw (e, d, t, q) refl)
      ]
    ]
  ]
]

update-unchanged :
    (v : Values) (s : Site) {e : Error}
    → (update_minion_pool v s).0 ≡ err e
    → (update_minion_pool v s).1 ≡ s
unfolding update_minion_pool ◌>>=◌
update-unchanged v s h = elim (Option-cases s.pool) [
  | inl e ↦ rw e refl
  | inr (p, e) ↦ elim (Bool-cases (is_deallocated p.status)) [
    | inr d ↦ rw (e, d) refl
    | inl d ↦ absurd (let bad = rw (e, d) at h in cc)
  ]
]

abbrev pub is_refresh : PoolRequest → Bool
is_refresh PoolRequest.refresh = true
is_refresh _ = false

-- A request that raises, other than a refresh, leaves all as it was, also the status of the pool if the
-- flow cannot be started, unless it is a deletion for which keystone does not delete the trust of the
-- pool: then the row and the refresh jobs are gone.
pub handle_request-unchanged :
    (env : RequestEnv) (r : PoolRequest) (s : Site) {e : Error}
    → is_refresh r ≡ false
    → (handle_request env r s).0 ≡ err e
    → ((handle_request env r s).1 ≡ s)
      ⊎ (r ≡ PoolRequest.delete)
        × (env.has_trust ≡ true)
        × (env.deletes_trust ≡ false)
        × ((handle_request env r s).1
            ≡ record s { pool = none; jobs = unregister_jobs_with_prefix env.has_prefix s.jobs })
unfolding handle_request
handle_request-unchanged env PoolRequest.allocate s n h = inl (allocate-unchanged env s h)
handle_request-unchanged env PoolRequest.refresh s n h = absurd (cc)
handle_request-unchanged env PoolRequest.delete s n h = elim (delete-raised env s h) [
  | inl same ↦ inl same
  | inr (t, q, gone) ↦ inr (refl, t, q, gone)
]
handle_request-unchanged env (PoolRequest.deallocate force) s n h =
    inl (deallocate-unchanged env force s h)
handle_request-unchanged env (PoolRequest.update v) s n h = inl (update-unchanged v s h)
