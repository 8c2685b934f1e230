-- ===== src/Components/External/Finalization.antt =====
-- The end of the external resources of a source: `Source.Finalize` of
-- pkg/triggermesh/components/source/source.go and the choice of the case in `Finalize` of
-- pkg/triggermesh/adapter/reconciler/reconciler.go. The body of a case, which makes the clients of a
-- cloud and calls them, is the parameter `clean_up`; it may fail, and it may panic.
use tmctl.Base.{
  String, any, List, [], ◌∷◌, Result, ok, err, panic, Option, ◌==◌, String_eq, if◌then◌else◌, Dict,
}
use tmctl.Components.{Source}
use tmctl.Crd.Objects.{Crd}
use tmctl.Crd.Process.{Parsers}
use tmctl.Crd.Schema.{Schema}
use tmctl.Dump.Workloads.{source_unstructured}
use tmctl.Kubernetes.{Object}
use tmctl.Kubernetes.Value.{Value, Fields}

-- A call's result with what is outside after it.
abbrev pub Outcome : Type 0 → Type 0
Outcome C = Result (Unit {0}) × C

-- The kinds whose case calls a cloud.
abbrev cloud_kinds : List String
cloud_kinds =
    "AWSS3Source" ∷ "AWSEventBridgeSource" ∷ "AzureEventGridSource" ∷ "AzureServiceBusTopicSource"
    ∷ "AzureBlobStorageSource" ∷ "GoogleCloudBillingSource" ∷ "GoogleCloudPubSubSource"
    ∷ "GoogleCloudAuditLogsSource" ∷ "GoogleCloudStorageSource"
    ∷ "GoogleCloudSourceRepositoriesSource" ∷ []

module _ {C : Type 0} (clean_up : Object → Dict String → C → Outcome C) where
  unfoldable pub finalize : Object → Dict String → C → Outcome C
  finalize o secrets cloud =
      if any (λ kind. o.kind == kind) cloud_kinds
      then clean_up o secrets cloud
      else if o.kind == "AzureActivityLogsSource"
      then (err "this component is not suitable for local env yet", cloud)
      else if o.kind == "ZendeskSource"
      then (err "this component is multitenant and not suitable for local env", cloud)
      else (ok tt, cloud)

  abbrev finalize_object : Result Object → Dict String → C → Outcome C
  unfolding finalize
  finalize_object (ok o) secrets cloud = finalize o secrets cloud
  finalize_object (err e) secrets cloud = (err e, cloud)
  finalize_object panic secrets cloud = (panic, cloud)

  unfoldable pub finalize_source :
      Parsers
      → (Schema → Option Fields → Result (Unit {0}))
      → (Value → Result Value)
      → (Dict String → Object → Result Object)
      → Crd
      → Source
      → Dict String
      → C
      → Outcome C
  unfolding source_unstructured finalize
  finalize_source y validate deep_copy set_status c s secrets cloud =
      finalize_object (source_unstructured y validate deep_copy set_status c s) secrets cloud
