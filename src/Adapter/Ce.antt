-- ===== src/Adapter/Ce.antt =====
-- pkg/triggermesh/adapter/ce: the events that a kind of component produces and accepts. A kind whose
-- package has the methods is in the list of those that the code calls.
use tmctl.Adapter.{
  Library, one_of, sources_api, targets_api, multitenant, unsupported, unsupported_group,
}
use tmctl.Base.{String, List, [], ◌∷◌, Result, ok, ◌>>=◌, ◌==◌, if◌then◌else◌, String_eq}
use tmctl.Kubernetes.{Object}

-- The struct `EventAttributes`.
pub record Attributes : Type 0 where
  pub produced_source : String
  pub produced_types : List String
  pub accepted_types : List String

abbrev no_attributes : Attributes
no_attributes = record { produced_source = ""; produced_types = []; accepted_types = [] }

-- The cases of `sources`; all of them read the types and the source.
abbrev pub source_kinds : List String
source_kinds =
    "AWSCloudWatchLogsSource" ∷ "AWSCloudWatchSource" ∷ "AWSCodeCommitSource"
    ∷ "AWSCognitoIdentitySource" ∷ "AWSCognitoUserPoolSource" ∷ "AWSDynamoDBSource"
    ∷ "AWSEventBridgeSource" ∷ "AWSKinesisSource" ∷ "AWSPerformanceInsightsSource" ∷ "AWSS3Source"
    ∷ "AWSSQSSource" ∷ "AzureActivityLogsSource" ∷ "AzureBlobStorageSource" ∷ "AzureEventGridSource"
    ∷ "AzureEventHubsSource" ∷ "AzureIOTHubSource" ∷ "AzureQueueStorageSource"
    ∷ "AzureServiceBusQueueSource" ∷ "AzureServiceBusTopicSource" ∷ "CloudEventsSource"
    ∷ "GoogleCloudAuditLogsSource" ∷ "GoogleCloudBillingSource" ∷ "GoogleCloudPubSubSource"
    ∷ "GoogleCloudSourceRepositoriesSource" ∷ "GoogleCloudStorageSource" ∷ "HTTPPollerSource"
    ∷ "IBMMQSource" ∷ "KafkaSource" ∷ "MongoDBSource" ∷ "OCIMetricsSource" ∷ "SalesforceSource"
    ∷ "SlackSource" ∷ "SolaceSource" ∷ "TwilioSource" ∷ "WebhookSource" ∷ []

abbrev pub multitenant_kinds : List String
multitenant_kinds = "AWSSNSSource" ∷ "ZendeskSource" ∷ []

-- The cases of `targets` that read the types, the source and the accepted types.
abbrev pub full_kinds : List String
full_kinds =
    "AWSEventBridgeTarget" ∷ "AWSS3Target" ∷ "AzureEventHubsTarget" ∷ "AzureServiceBusTarget"
    ∷ "DatadogTarget" ∷ "ElasticsearchTarget" ∷ "GoogleCloudFirestoreTarget"
    ∷ "GoogleCloudStorageTarget" ∷ "GoogleCloudWorkflowsTarget" ∷ "GoogleSheetTarget" ∷ "HTTPTarget"
    ∷ "IBMMQTarget" ∷ "JiraTarget" ∷ "MongoDBTarget" ∷ "SalesforceTarget" ∷ "SendGridTarget"
    ∷ "SlackTarget" ∷ "TwilioTarget" ∷ "ZendeskTarget" ∷ []

-- Those that do not read the accepted types.
abbrev pub producing_kinds : List String
producing_kinds = "AWSComprehendTarget" ∷ "AWSDynamoDBTarget" ∷ "LogzTarget" ∷ []

-- That which reads the accepted types only.
abbrev pub accepting_kinds : List String
accepting_kinds = "LogzMetricsTarget" ∷ []

-- Those that give no attributes.
abbrev pub silent_kinds : List String
silent_kinds =
    "AWSKinesisTarget" ∷ "AWSLambdaTarget" ∷ "AWSSNSTarget" ∷ "AWSSQSTarget" ∷ "CloudEventsTarget"
    ∷ "ConfluentTarget" ∷ "KafkaTarget" ∷ "OracleTarget" ∷ "SolaceTarget" ∷ "SplunkTarget" ∷ []

module _ (lib : Library) where
  abbrev producing : lib.Typed → Attributes
  producing v = record {
    produced_source = lib.event_source v;
    produced_types = lib.event_types v;
    accepted_types = [];
  }

  abbrev full : lib.Typed → Attributes
  full v = record {
    produced_source = lib.event_source v;
    produced_types = lib.event_types v;
    accepted_types = lib.accepted_event_types v;
  }

  abbrev accepting : lib.Typed → Attributes
  accepting v = record {
    produced_source = "";
    produced_types = [];
    accepted_types = lib.accepted_event_types v;
  }

  abbrev converted : (lib.Typed → Attributes) → Object → Result Attributes
  converted f o = lib.from_unstructured o.kind o >>= λ v. ok (f v)

  unfoldable pub sources : Object → Result Attributes
  sources o =
      if one_of source_kinds o.kind
      then converted producing o
      else if one_of multitenant_kinds o.kind
      then multitenant o.kind
      else unsupported o.kind

  unfoldable pub targets : Object → Result Attributes
  targets o =
      if one_of full_kinds o.kind
      then converted full o
      else if one_of producing_kinds o.kind
      then converted producing o
      else if one_of accepting_kinds o.kind
      then converted accepting o
      else if one_of silent_kinds o.kind
      then ok no_attributes
      else unsupported o.kind

  unfoldable pub attributes : Object → Result Attributes
  attributes o =
      if o.api_version == sources_api
      then sources o
      else if o.api_version == targets_api
      then targets o
      else unsupported_group o.kind
