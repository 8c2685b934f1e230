-- ===== src/Components.antt =====
-- pkg/triggermesh/components: sources and targets as `New` makes them, and `GetObject`, which makes a
-- component of an object of the manifest.
pub mod Objects
pub mod Exports
pub mod External
pub mod Found
use tmctl.Base.{
  String, Bool, Option, none, some, List, ◌<>◌, ◌==◌, if◌then◌else◌, not, String_eq, Dict,
  has_suffix, to_lower,
}
use tmctl.Kubernetes.Value.{Fields}

-- The CRD is left out. A map that is `nil` is `none`; the values of the status are texts.
pub record Source : Type 0 where
  pub name : String
  pub broker : String
  pub kind : String
  pub version : String
  pub spec : Option Fields
  pub status : Dict String

pub record Target : Type 0 where
  pub name : String
  pub broker : String
  pub version : String
  pub kind : String
  pub spec : Option Fields

-- The kind with its suffix: where the suffix is missing, it is put after the kind as it was given.
unfoldable pub full_kind : String → String → String
unfolding to_lower has_suffix ◌<>◌
full_kind suffix kind = if has_suffix (to_lower kind) suffix then to_lower kind else kind <> suffix

abbrev pub default_name : String → String → String → String
unfolding ◌<>◌
default_name name broker kind = if name == "" then broker <> "-" <> kind else name

-- `New` for a spec that is a map already.
unfoldable pub new_source : String → String → String → String → Option Fields → Dict String → Source
unfolding full_kind
new_source name kind broker version spec status = record {
  name = default_name name broker (full_kind "source" kind);
  broker = broker;
  kind = full_kind "source" kind;
  version = version;
  spec = spec;
  status = status;
}

unfoldable pub new_target : String → String → String → String → Option Fields → Target
unfolding full_kind
new_target name kind broker version spec = record {
  name = default_name name broker (full_kind "target" kind);
  broker = broker;
  version = version;
  kind = full_kind "target" kind;
  spec = spec;
}
