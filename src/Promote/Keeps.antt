-- ===== src/Promote/Keeps.antt =====
-- The order of the acts, and what keeps it: combinators of stages, and the guarded deploy.
use data_migration_tool.Prelude.{Bool, true, false, [], ◌∷◌, if◌then◌else◌}
use data_migration_tool.Prefix.Issued.{Target, local, atp}
use data_migration_tool.Promote.State.{
  waited, deployed_db, deployed_apex, gate_checked, History, World, State, Ran, exits, done, Stage,
  follow, ◌>>=◌, pure, both,
}
use data_migration_tool.Promote.Stages.{
  deploy_db, deploy_apex, deploy_and_check, guarded_deploy, stage_runtime_config,
}

-- the gate was the last thing checked, and it passed; the local instance needs no gate
abbrev pub Passed : Target → History → Type 0
Passed local h = Unit
Passed atp (gate_checked true ∷ h) = Unit
Passed atp _ = ⊥

-- an idle wait for the instance, straight after the gate
abbrev pub Cleared : Target → History → Type 0
Cleared local (waited local true ∷ h) = Passed local h
Cleared atp (waited atp true ∷ h) = Passed atp h
Cleared t _ = ⊥

abbrev pub DbDeployed : Target → History → Type 0
DbDeployed local (deployed_db local ∷ h) = Unit
DbDeployed atp (deployed_db atp ∷ h) = Unit
DbDeployed t _ = ⊥

abbrev pub Ordered : History → Type 0
Ordered [] = Unit
Ordered (deployed_db t ∷ h) = Cleared t h × Ordered h
Ordered (deployed_apex t ∷ h) = DbDeployed t h × Ordered h
Ordered (a ∷ h) = Ordered h

-- a stage that keeps the order
abbrev pub Keeps : {A : Type 0} → Stage A → Type 0
Keeps m = (s : State) → Ordered s.did → Ordered (m s).1.did

pub follow-Keeps :
    {A B : Type 0} (r : Ran A) (f : A → Stage B)
    → ((a : A) → Keeps (f a))
    → (s : State) → Ordered s.did
    → Ordered (follow r f s).1.did
follow-Keeps exits f k s o = o
follow-Keeps (done a) f k s o = k a s o

pub then-Keeps :
    {A B : Type 0} (m : Stage A) (f : A → Stage B)
    → Keeps m
    → ((a : A) → Keeps (f a))
    → Keeps (m >>= f)
then-Keeps m f h k s o = follow-Keeps (m s).0 f k (m s).1 (h s o)

pub if-Keeps :
    {A : Type 0} (b : Bool) (m k : Stage A)
    → Keeps m
    → Keeps k
    → Keeps (λ s. (if b then m else k) s)
if-Keeps true m k h l = h
if-Keeps false m k h l = l

pub both-Keeps : (m k : Stage Bool) → Keeps m → Keeps k → Keeps (both m k)
both-Keeps m k h l = then-Keeps m _ h (λ b. if-Keeps b k (pure false) l (λ s o. o))

module _ (w : World) where
  pub config-Keeps : (t : Target) → Keeps (stage_runtime_config w t)
  unfolding stage_runtime_config
  config-Keeps t s o = o

  apex-Ordered :
      (t : Target) (s : State)
      → DbDeployed t s.did
      → Ordered s.did
      → Ordered (deploy_apex w t s).1.did
  unfolding deploy_apex
  apex-Ordered t s d o = (d, o)

  db_deployed : (t : Target) (h : History) → DbDeployed t (deployed_db t ∷ h)
  db_deployed local h = tt
  db_deployed atp h = tt

  cleared : (t : Target) (h : History) → Passed t h → Cleared t (waited t true ∷ h)
  cleared local h p = p
  cleared atp h p = p

  apex_branch :
      (b : Bool) (t : Target) (s : State)
      → DbDeployed t s.did
      → Ordered s.did
      → Ordered ((if b then deploy_apex w t else pure false) s).1.did
  apex_branch true t s d o = apex-Ordered t s d o
  apex_branch false t s d o = o

  deploy_both :
      (t : Target) (s : State)
      → Cleared t s.did
      → Ordered s.did
      → Ordered (both (deploy_db w t) (deploy_apex w t) s).1.did
  unfolding deploy_db
  deploy_both t s c o =
      apex_branch _ t (record s { did = deployed_db t ∷ s.did }) (db_deployed t s.did) (c, o)

  deploy-Ordered :
      (t : Target) (s : State)
      → Cleared t s.did
      → Ordered s.did
      → Ordered (deploy_and_check w t s).1.did
  unfolding deploy_and_check
  deploy-Ordered t s c o =
      let r = both (deploy_db w t) (deploy_apex w t) s in
      follow-Keeps r.0 _ (λ ok s o. o) r.1 (deploy_both t s c o)

  guard_branch :
      (idle : Bool) (t : Target) (s : State)
      → Passed t s.did
      → Ordered s.did
      → Ordered
          ((if idle then deploy_and_check w t else pure false)
            (record s { did = waited t idle ∷ s.did })).1.did
  guard_branch true t s p o =
      deploy-Ordered t (record s { did = waited t true ∷ s.did }) (cleared t s.did p) o
  guard_branch false t s p o = o

  pub guarded-Ordered :
      (t : Target) (s : State)
      → Passed t s.did
      → Ordered s.did
      → Ordered (guarded_deploy w t s).1.did
  unfolding guarded_deploy
  guarded-Ordered t s p o = guard_branch _ t s p o
