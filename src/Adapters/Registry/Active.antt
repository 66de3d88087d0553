-- ===== src/Adapters/Registry/Active.antt =====
-- A registry in which no client drains.
use download_gateway.Prelude.{Bool, false, Str, Option, none, some, [], ◌∷◌, ◌≡◌, refl, All, arith}
use download_gateway.Prelude.Assoc
use download_gateway.Prelude.Assoc.{Assoc}
use download_gateway.Adapters.Spec.{ClientSpec}
use download_gateway.Adapters.Client.{Adapter}
use download_gateway.Adapters.Registry.{Registry, Entry, add_env}
use download_gateway.Adapters.Registry.Apply.{stays}

-- No client drains.
abbrev pub IsActive : Assoc Entry → Type 0
IsActive m = All (λ kv. kv.1.draining ≡ false) m

pub retain-IsActive :
    (in_use : Str → Bool) (r : Registry) (m : Assoc Entry)
    → IsActive m
    → Assoc.retain (stays in_use r) m ≡ m
unfolding Assoc.retain
retain-IsActive in_use r [] h = refl
retain-IsActive in_use r ((id, e) ∷ m) h = rw (h.0, retain-IsActive in_use r m h.1) refl

insert-IsActive :
    (id : Str) (e : Entry) (m : Assoc Entry)
    → e.draining ≡ false
    → IsActive m
    → IsActive (Assoc.insert id e m)
unfolding Assoc.insert
insert-IsActive id e [] d h = (d, tt)
insert-IsActive id e ((j, x) ∷ m) d h = ground (arith, insert-IsActive id e m d h.1)

pub add_env-IsActive :
    (spec : ClientSpec) (ad : Option Adapter) (r : Registry)
    → IsActive r.clients
    → IsActive (add_env spec ad r).clients
unfolding add_env
add_env-IsActive spec none r h = h
add_env-IsActive spec (some ad) r h = insert-IsActive _ _ r.clients refl h
