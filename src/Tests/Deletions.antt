-- ===== src/Tests/Deletions.antt =====
-- Deleting a component of a manifest in memory.
use tmctl.Base.{
  String, Bool, true, false, not, any, [], Result, ok, ◌≡◌, refl, ◌==◌, String_eq, Dict,
  if◌then◌else◌, ◌&&◌, err, arith, eq_iff,
}
use tmctl.Broker.Config.{Configuration, LocalTriggerSpec, Tools, entries}
use tmctl.Delete.{World, is_secret_of}
use tmctl.Kubernetes.{Object}
use tmctl.Tests.Samples.{disk, yaml, tools, outside, manifest, files}

abbrev unnamed : Dict LocalTriggerSpec → Bool
unnamed = any (λ (name, _). name == "")

abbrev checked : Result Configuration → Result Configuration
checked (ok c) = if unnamed (entries c.triggers) then err "a trigger has no name" else ok c
checked r = err "not a configuration"

-- Tools that refuse a configuration with a trigger that has no name.
abbrev strict_tools : Tools disk
strict_tools = record tools { unmarshal = λ b. checked (tools.unmarshal b) }

abbrev strict_world : World disk yaml strict_tools outside
strict_world = record { manifest = manifest; disk = files; cloud = [] }

abbrev is_other : Object → Bool
is_other o = o.kind == "Source"

other_kind : (k a b : String) → (a == b) ≡ false → (k == a) ≡ true → (k == b) ≡ false
other_kind k a b h e = ground (arith, eq_iff k a, eq_iff k b, eq_iff a b)

-- No source other than the sink, no trigger, and no secret.
apart :
    (o : Object)
    → is_other o && not (o.metadata.name == "sink") ≡ true
    → (("sink" == o.metadata.name) ≡ false)
      × ((o.kind == "Trigger") ≡ false)
      × (is_secret_of "sink" o ≡ false)
apart o h = ground (
  arith,
  eq_iff "sink" o.metadata.name,
  eq_iff o.metadata.name "sink",
  other_kind o.kind "Source" "Trigger" refl,
  other_kind o.kind "Source" "Secret" refl,
)
