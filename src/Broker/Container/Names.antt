-- ===== src/Broker/Container/Names.antt =====
-- The name of the broker's container, as it is started and as it is stopped.
use tmctl.Base.{
  ◌+◌, String, true, false, ◌<>◌, size, ◌≡◌, ◌≢◌, ◌↔◌, refl, ap, arith, has_suffix, ◌==◌, String_eq,
  Bool-cases, inl, inr,
}
use tmctl.Broker.Container.{broker_container_name}
use tmctl.Broker.Trigger.{broker_kind}
use tmctl.Delete.{container_name}
use tmctl.Kubernetes.{Object}

size-append : (s t : String) → size (s <> t) ≡ size s + size t
unfolding size ◌<>◌
size-append String.[] t = ground arith
size-append (String.◌∷◌ c s) t = ground (arith, size-append s t)

longer : (s : String) → s <> "-broker" ≢ s
unfolding size
longer s e = ground (arith, size-append s "-broker", (ap size e))

-- Deleting a broker stops a container by the name that the broker was started with exactly if the
-- broker's name does not itself end in the suffix.
pub container_name-broker :
    (o : Object)
    → (o.kind == broker_kind) ≡ true
    → (container_name o ≡ broker_container_name o.metadata.name)
      ↔ (has_suffix o.metadata.name "-broker" ≡ false)
unfolding container_name broker_container_name
container_name-broker o k = elim (Bool-cases (has_suffix o.metadata.name "-broker")) [
  | inl e ↦ rw k (rw e (λ h. absurd (longer o.metadata.name h), λ h. cc h))
  | inr e ↦ rw k (rw e (λ h. refl, λ h. refl))
]
