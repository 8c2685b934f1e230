-- ===== src/Adapter/Env.antt =====
-- pkg/triggermesh/adapter/env: the environment variables that an adapter reads its spec from.
use tmctl.Adapter.{
  Library, EnvVar, one_of, sources_api, targets_api, flow_api, extensions_api, routing_api,
  multitenant, unsupported, unsupported_group,
}
use tmctl.Adapter.Ce.{multitenant_kinds}
use tmctl.Base.{String, List, [], ◌∷◌, Result, ok, ◌>>=◌, ◌==◌, if◌then◌else◌, String_eq}
use tmctl.Kubernetes.{Object}

-- The cases of `sources` whose `MakeAppEnv` has no error.
abbrev pub source_kinds : List String
source_kinds =
    "AWSCloudWatchLogsSource" ∷ "AWSCodeCommitSource" ∷ "AWSCognitoIdentitySource"
    ∷ "AWSCognitoUserPoolSource" ∷ "AWSDynamoDBSource" ∷ "AWSEventBridgeSource" ∷ "AWSKinesisSource"
    ∷ "AWSPerformanceInsightsSource" ∷ "AWSS3Source" ∷ "AWSSQSSource" ∷ "AzureActivityLogsSource"
    ∷ "AzureBlobStorageSource" ∷ "AzureEventGridSource" ∷ "AzureEventHubsSource"
    ∷ "AzureIOTHubSource" ∷ "AzureQueueStorageSource" ∷ "AzureServiceBusQueueSource"
    ∷ "AzureServiceBusTopicSource" ∷ "CloudEventsSource" ∷ "GoogleCloudAuditLogsSource"
    ∷ "GoogleCloudBillingSource" ∷ "GoogleCloudPubSubSource" ∷ "GoogleCloudSourceRepositoriesSource"
    ∷ "GoogleCloudStorageSource" ∷ "HTTPPollerSource" ∷ "IBMMQSource" ∷ "KafkaSource"
    ∷ "MongoDBSource" ∷ "SalesforceSource" ∷ "SlackSource" ∷ "SolaceSource" ∷ "WebhookSource" ∷ []

-- Those whose `MakeAppEnv` has one.
abbrev pub failing_kinds : List String
failing_kinds = "AWSCloudWatchSource" ∷ "OCIMetricsSource" ∷ []

-- The cases of `targets`.
abbrev pub target_kinds : List String
target_kinds =
    "AWSComprehendTarget" ∷ "AWSDynamoDBTarget" ∷ "AWSEventBridgeTarget" ∷ "AWSKinesisTarget"
    ∷ "AWSLambdaTarget" ∷ "AWSS3Target" ∷ "AWSSNSTarget" ∷ "AWSSQSTarget" ∷ "AzureEventHubsTarget"
    ∷ "AzureServiceBusTarget" ∷ "CloudEventsTarget" ∷ "DatadogTarget" ∷ "ElasticsearchTarget"
    ∷ "GoogleCloudFirestoreTarget" ∷ "GoogleCloudPubSubTarget" ∷ "GoogleCloudStorageTarget"
    ∷ "GoogleCloudWorkflowsTarget" ∷ "GoogleSheetTarget" ∷ "HTTPTarget" ∷ "IBMMQTarget"
    ∷ "JiraTarget" ∷ "KafkaTarget" ∷ "LogzMetricsTarget" ∷ "LogzTarget" ∷ "MongoDBTarget"
    ∷ "OracleTarget" ∷ "SalesforceTarget" ∷ "SendGridTarget" ∷ "SlackTarget" ∷ "SolaceTarget"
    ∷ "SplunkTarget" ∷ "TwilioTarget" ∷ "ZendeskTarget" ∷ []

-- The cases of `flow`.
abbrev pub flow_kinds : List String
flow_kinds =
    "Transformation" ∷ "XSLTTransformation" ∷ "XMLToJSONTransformation" ∷ "JQTransformation" ∷ []

module _ (lib : Library) where
  abbrev converted : Object → Result (List EnvVar)
  converted o = lib.from_unstructured o.kind o >>= λ v. ok (lib.app_env o.kind v)

  unfoldable pub sources : Object → Result (List EnvVar)
  sources o =
      if one_of source_kinds o.kind
      then converted o
      else if one_of failing_kinds o.kind
      then lib.from_unstructured o.kind o >>= lib.try_app_env o.kind
      else if o.kind == "TwilioSource"
      then ok []
      else if one_of multitenant_kinds o.kind
      then multitenant o.kind
      else unsupported o.kind

  unfoldable pub targets : Object → Result (List EnvVar)
  targets o = if one_of target_kinds o.kind then converted o else unsupported o.kind

  unfoldable pub flow : Object → Result (List EnvVar)
  flow o = if one_of flow_kinds o.kind then converted o else unsupported o.kind

  unfoldable pub extensions : Object → Result (List EnvVar)
  extensions o = if o.kind == "Function" then converted o else unsupported o.kind

  unfoldable pub routing : Object → Result (List EnvVar)
  routing o = unsupported o.kind

  unfoldable pub build : Object → Result (List EnvVar)
  build o =
      if o.api_version == sources_api
      then sources o
      else if o.api_version == targets_api
      then targets o
      else if o.api_version == flow_api
      then flow o
      else if o.api_version == extensions_api
      then extensions o
      else if o.api_version == routing_api
      then routing o
      else unsupported_group o.kind
