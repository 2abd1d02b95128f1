-- ===== src/FrameHandler/Authorised.antt =====
-- backend/src/realtime/frame_handler.ts: exactly which frames pass the checks of `handleFrame`.
use crew_link.Base.{
  String, Bool, true, false, Option, none, some, ◌≡◌, ◌↔◌, ◌⊎◌, inl, inr, refl, arith, eq_iff,
  Option-cases,
}
use mathlib.Core.Option.{some-injective}
use crew_link.Promise.{Promise, fulfilled, rejected}
use crew_link.Wire.{
  InboundFrame, gps, waypoint, hazard, hazard_remove, tour, checkin, status, originator_of,
}
use crew_link.FrameHandler.{
  Services, Origin, Raw, Check, Reason, proceed, drop, fail, ◌>>=◌, guard, await, is_originator,
  is_reporter, not_reporter, not_leader, originator_mismatch, World, decode, check_reporter,
  check_leader, ask_leader, authorise,
}

-- The frame names the member of the connection as its originator, or nobody.
abbrev pub IsOwn : Origin → InboundFrame → Type 0
IsOwn o f = (originator_of f ≡ none) ⊎ (originator_of f ≡ some o.member_id)

pub is_originator_iff :
    (o : Origin) (f : InboundFrame) → (is_originator f o.member_id ≡ true) ↔ IsOwn o f
unfolding is_originator
is_originator_iff o f = elim (Option-cases (originator_of f)) [
  | inl e ↦ rw (e, is_originator) (ground arith)
  | inr (who, e) ↦ rw (e, is_originator) (ground (arith, eq_iff who o.member_id))
]

pub bind-eq-proceed :
    {A B : Type 0} (m : Check A) (k : A → Check B) {b : B}
    → (m >>= k) ≡ proceed b
    → (a : A) × (m ≡ proceed a) × (k a ≡ proceed b)
bind-eq-proceed (proceed a) k e = (a, refl, e)
bind-eq-proceed (drop r) k e = cc
bind-eq-proceed fail k e = cc

pub guard_iff : (b : Bool) (r : Reason) → (guard b r ≡ proceed tt) ↔ (b ≡ true)
guard_iff true r = ground arith
guard_iff false r = ground arith

-- The answer of `hazardReporter` lets the sender go on: nobody, or the sender.
pub await-is_reporter_iff :
    (m : Promise (Option String)) (member : String)
    → ((await m >>= λ reporter. guard (is_reporter reporter member) not_reporter) ≡ proceed tt)
      ↔ ((m ≡ fulfilled none) ⊎ (m ≡ fulfilled (some member)))
unfolding is_reporter
await-is_reporter_iff (fulfilled none) member = ground arith
await-is_reporter_iff (fulfilled (some r)) member = ground (arith, eq_iff r member)
await-is_reporter_iff rejected member = ground arith

pub await-guard_iff :
    (m : Promise Bool)
    → ((await m >>= λ is_leader. guard is_leader not_leader) ≡ proceed tt) ↔ (m ≡ fulfilled true)
await-guard_iff (fulfilled true) = ground arith
await-guard_iff (fulfilled false) = ground arith
await-guard_iff rejected = ground arith

module _ (env : Services) where
  -- Where the snapshots are kept, the hazard is unknown, or was reported by the sender.
  abbrev pub MayRemove : World env → Origin → InboundFrame → Type 0
  MayRemove w o (hazard_remove p) =
      (w.snapshots ≡ none)
      ⊎ ((s : env.snapshot_store.State) × (w.snapshots ≡ some s)
          × ((env.snapshot_store.hazard_reporter s o.convoy_id p.id ≡ fulfilled none)
              ⊎ (env.snapshot_store.hazard_reporter s o.convoy_id p.id
                  ≡ fulfilled (some o.member_id))))
  MayRemove w o (gps p) = Unit {0}
  MayRemove w o (waypoint p) = Unit {0}
  MayRemove w o (hazard p) = Unit {0}
  MayRemove w o (tour p) = Unit {0}
  MayRemove w o (checkin p) = Unit {0}
  MayRemove w o (status p) = Unit {0}

  -- Where the leader is resolved, the sender is the leader.
  abbrev pub IsLeader : World env → Origin → Type 0
  IsLeader w o =
      (w.resolve_leader ≡ none)
      ⊎ ((resolve : String → String → Promise Bool) × (w.resolve_leader ≡ some resolve)
          × (resolve o.member_id o.convoy_id ≡ fulfilled true))

  abbrev pub MayLead : World env → Origin → InboundFrame → Type 0
  MayLead w o (tour p) = IsLeader w o
  MayLead w o (waypoint p) = IsLeader w o
  MayLead w o (gps p) = Unit {0}
  MayLead w o (hazard p) = Unit {0}
  MayLead w o (hazard_remove p) = Unit {0}
  MayLead w o (checkin p) = Unit {0}
  MayLead w o (status p) = Unit {0}

  abbrev pub IsAuthorised : World env → Origin → Raw → InboundFrame → Type 0
  IsAuthorised w o raw f =
      (decode env raw ≡ proceed f) × IsOwn o f × MayRemove w o f × MayLead w o f

  check_reporter_iff :
      (w : World env) (o : Origin) (f : InboundFrame)
      → (check_reporter env w o f ≡ proceed tt) ↔ MayRemove w o f
  unfolding check_reporter
  check_reporter_iff w o (hazard_remove p) = elim (Option-cases w.snapshots) [
    | inl e ↦ rw (e, check_reporter) (λ _. inl refl, λ _. refl)
    | inr (s, e) ↦
        let (to, from) =
          await-is_reporter_iff (env.snapshot_store.hazard_reporter s o.convoy_id p.id)
            o.member_id in
        rw (e, check_reporter) (λ h. inr (s, refl, to h), λ m. from (answer_of s m))
  ]
    where
      answer_of :
          (s : env.snapshot_store.State)
          → (◌≡◌ {A = Option env.snapshot_store.State} (some s) none)
            ⊎ ((t : env.snapshot_store.State) × (◌≡◌ {A = Option env.snapshot_store.State}
                  (some s)
                  (some t))
                × ((env.snapshot_store.hazard_reporter t o.convoy_id p.id ≡ fulfilled none)
                    ⊎ (env.snapshot_store.hazard_reporter t o.convoy_id p.id
                        ≡ fulfilled (some o.member_id))))
          → (env.snapshot_store.hazard_reporter s o.convoy_id p.id ≡ fulfilled none)
            ⊎ (env.snapshot_store.hazard_reporter s o.convoy_id p.id ≡ fulfilled (some o.member_id))
      answer_of s (inl h) = cc
      answer_of s (inr (t, same, h)) = rw (some-injective s t same) h
  check_reporter_iff w o (gps p) = ground arith
  check_reporter_iff w o _ = ground arith

  ask_leader_iff : (w : World env) (o : Origin) → (ask_leader env w o ≡ proceed tt) ↔ IsLeader w o
  unfolding ask_leader
  ask_leader_iff w o = elim (Option-cases w.resolve_leader) [
    | inl e ↦ rw (e, ask_leader) (λ _. inl refl, λ _. refl)
    | inr (resolve, e) ↦
        let (to, from) = await-guard_iff (resolve o.member_id o.convoy_id) in
        rw (e, ask_leader) (λ h. inr (resolve, refl, to h), λ m. from (answer_of resolve m))
  ]
    where
      answer_of :
          (resolve : String → String → Promise Bool)
          → (◌≡◌ {A = Option (String → String → Promise Bool)} (some resolve) none)
            ⊎ ((r : String → String → Promise Bool) × (◌≡◌
                  {A = Option (String → String → Promise Bool)}
                  (some resolve)
                  (some r))
                × (r o.member_id o.convoy_id ≡ fulfilled true))
          → resolve o.member_id o.convoy_id ≡ fulfilled true
      answer_of resolve (inl h) = cc
      answer_of resolve (inr (r, same, h)) = rw (some-injective resolve r same) h

  check_leader_iff :
      (w : World env) (o : Origin) (f : InboundFrame)
      → (check_leader env w o f ≡ proceed tt) ↔ MayLead w o f
  unfolding check_leader
  check_leader_iff w o (tour p) = ask_leader_iff w o
  check_leader_iff w o (waypoint p) = ask_leader_iff w o
  check_leader_iff w o _ = ground arith

  pub authorise_iff :
      (w : World env) (o : Origin) (raw : Raw) (f : InboundFrame)
      → (authorise env w o raw ≡ proceed f) ↔ IsAuthorised w o raw f
  unfolding authorise
  authorise_iff w o raw f = (passed, passes)
    where
      passed : authorise env w o raw ≡ proceed f → IsAuthorised w o raw f
      passed e =
          let (g, decoded, e1) = bind-eq-proceed (decode env raw) _ e in
          let (_, own, e2) =
            bind-eq-proceed (guard (is_originator g o.member_id) originator_mismatch) _ e1 in
          let (_, reporter, e3) = bind-eq-proceed (check_reporter env w o g) _ e2 in
          let (_, leader, e4) = bind-eq-proceed (check_leader env w o g) _ e3 in
          let same : g ≡ f = cc in
          rw (← same) (
            decoded,
            (is_originator_iff o g).0 ((guard_iff _ originator_mismatch).0 own),
            (check_reporter_iff w o g).0 reporter,
            (check_leader_iff w o g).0 leader,
          )

      passes : IsAuthorised w o raw f → authorise env w o raw ≡ proceed f
      passes (decoded, own, reporter, leader) = rw (
        decoded,
        authorise,
        (is_originator_iff o f).1 own,
        (check_reporter_iff w o f).1 reporter,
        (check_leader_iff w o f).1 leader,
      )
