-- ===== src/Server/System/Secrets.antt =====
-- The registry keeps no secret, whatever is pushed.
use download_gateway.Prelude.{Bool, Str, Option, none, some, ◌≡◌, arith}
use download_gateway.Prelude.Assoc
use download_gateway.Prelude.Assoc.{Assoc, Distinct, lookup-insert, kept_by}
use download_gateway.Adapters.Client.{Adapter}
use download_gateway.Adapters.Spec.{ClientSpec, GoLib}
use download_gateway.Adapters.Registry.{Registry, Entry, release, add_env}
use download_gateway.Adapters.Registry.Leases.{lease-Granted, clients-release}
use download_gateway.Adapters.Registry.Apply.{reap, stays}
use download_gateway.Adapters.Registry.Apply.Reap.{reap-lookup}
use download_gateway.Adapters.Registry.Apply.Secrets.{IsHidden, HidesSecrets, apply-HidesSecrets}
use download_gateway.Server.System.{
  System, init, Step, wire, take_lease, add_job, adopt_job, end_lease, push, drop_drained, end_job,
  see_job, miss_job, find_job, Reach, here, next,
}
use download_gateway.Server.System.Safety.{IsSafe, Reach-IsSafe}

add_env-HidesSecrets :
    (spec : ClientSpec) (ad : Option Adapter) (r : Registry)
    → HidesSecrets r
    → HidesSecrets (add_env spec ad r)
unfolding add_env
add_env-HidesSecrets spec none r h id = h id
add_env-HidesSecrets spec (some ad) r h id = rw lookup-insert (ground (arith, h id))

same_clients : (r s : Registry) → s.clients ≡ r.clients → HidesSecrets r → HidesSecrets s
same_clients r s same h id = rw same (h id)

kept_by-IsHidden : (p : Entry → Bool) (o : Option Entry) → IsHidden o → IsHidden (kept_by p o)
kept_by-IsHidden p none h = tt
kept_by-IsHidden p (some e) h = ground arith

reap-HidesSecrets :
    (in_use : Str → Bool) (r : Registry)
    → Distinct r.clients
    → HidesSecrets r
    → HidesSecrets (reap in_use r).1
reap-HidesSecrets in_use r d h id =
    rw (reap-lookup in_use r id d)
      (kept_by-IsHidden (stays in_use r id) (Assoc.lookup id r.clients) (h id))

module _ (lib : GoLib) where
  Step-HidesSecrets :
      {s t : System} → Step lib s t → IsSafe s → HidesSecrets s.reg → HidesSecrets t.reg
  Step-HidesSecrets (wire s spec ad) v h = add_env-HidesSecrets spec ad s.reg h
  Step-HidesSecrets (take_lease s id c r e) v h =
      same_clients s.reg r (lease-Granted id s.reg r c e).clients h
  Step-HidesSecrets (add_job s t m) v h = h
  Step-HidesSecrets (adopt_job s t m) v h = h
  Step-HidesSecrets (end_lease s id m) v h =
      same_clients s.reg (release id s.reg) (clients-release id s.reg) h
  Step-HidesSecrets (push s revision specs in_use told) v h =
      apply-HidesSecrets lib revision specs in_use s.reg v.distinct h
  Step-HidesSecrets (drop_drained s in_use told) v h = reap-HidesSecrets in_use s.reg v.distinct h
  Step-HidesSecrets (end_job s adapter id) v h = h
  Step-HidesSecrets (see_job s now job w) v h = h
  Step-HidesSecrets (miss_job s now job) v h = h
  Step-HidesSecrets (find_job s job) v h = h

  -- No step of the gateway puts a secret into the registry's configurations.
  pub Reach-HidesSecrets :
      {s t : System} → IsSafe s → Reach lib s t → HidesSecrets s.reg → HidesSecrets t.reg
  Reach-HidesSecrets v here h = h
  Reach-HidesSecrets v (next r step) h =
      Step-HidesSecrets step (Reach-IsSafe lib v r) (Reach-HidesSecrets v r h)

pub HidesSecrets-init : HidesSecrets init.reg
unfolding Assoc.lookup
HidesSecrets-init id = tt
