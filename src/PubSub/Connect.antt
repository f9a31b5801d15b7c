-- ===== src/PubSub/Connect.antt =====
-- pubsub/client.go, NewPubSubClient and PublishMessage: what they ask of the cloud library, and what
-- they make of its answers.
use model_guiding_fuzz.Common.{
  Bool, Option, Random, [], false, if◌then◌else◌, inl, inr, ltb, none, pure, some, ℕ, ◌>>=◌, ◌⊎◌,
}
use Prim.Native.String.{String}
use text.Mathlib.Text
use model_guiding_fuzz.PubSub.{PubSubClient, AckMode}

-- Durations are numbers, 0 where none is given.
pub record SubscriptionConfig : Type 0 where
  pub ack_deadline : ℕ
  pub retention_duration : ℕ
  pub expiration_policy : ℕ
  pub filter : String

pub record Config : Type 0 where
  pub project_id : String
  pub topic_id : String
  pub subscription_id : String
  pub credentials : String
  pub ack_mode : AckMode
  pub sub_config : Option SubscriptionConfig

-- The calls on the library: what they return, none or false where that is an error.
pub record Service (S M : Type 0) : Type 1 where
  pub new_client : String → Option String → Random S Bool
  pub topic_exists : String → Random S (Option Bool)
  pub create_topic : String → Random S Bool
  pub subscription_exists : String → Random S (Option Bool)
  -- The subscription's name, that of the topic, and the options.
  pub create_subscription : String → String → SubscriptionConfig → Random S Bool
  -- Publish and Get under a timeout: the ID, or whether the deadline has passed.
  pub publish : M → Option ℕ → Random S (Bool ⊎ String)

-- The errors of NewPubSubClient, by the call that failed.
pub data ConnectError : Type 0 where
  no_client no_topic_check no_topic no_subscription_check no_subscription : ConnectError

-- What the library sets where the client sets nothing.
abbrev pub no_options : SubscriptionConfig
no_options = record { ack_deadline = 0; retention_duration = 0; expiration_policy = 0; filter = "" }

positive_or : ℕ → ℕ → ℕ
positive_or given default = if ltb 0 given then given else default

-- The options of a subscription that is created: those that are given.
unfoldable pub subscription_options : Option SubscriptionConfig → SubscriptionConfig
unfolding positive_or
subscription_options none = no_options
subscription_options (some given) = record {
  ack_deadline = positive_or given.ack_deadline no_options.ack_deadline;
  retention_duration = positive_or given.retention_duration no_options.retention_duration;
  expiration_policy = positive_or given.expiration_policy no_options.expiration_policy;
  filter = if Text.◌==◌ given.filter "" then no_options.filter else given.filter;
}

-- The results of PublishMessage: an ID, or an error.
pub data Published : Type 0 where
  published : String → Published
  publish_timeout publish_failed : Published

module _ {S M : Type 0} (service : Service S M) where
  new_pub_sub_client_of : AckMode → PubSubClient M
  new_pub_sub_client_of mode = record {
    message_buffer = [];
    ack_mode = mode;
    cancelled = false;
    receiver_started = false;
    receiver_done_once = false;
    message_chan = [];
    error_chan = [];
    acked = [];
    nacked = [];
  }

  -- A call that makes something, unless it exists.
  make : ConnectError → Bool → Random S Bool → Random S (ConnectError ⊎ Unit {0})
  make err exists call =
      if exists then pure (inr tt) else (call >>= λ ok. pure (if ok then inr tt else inl err))

  ensure_exists :
      ConnectError
      → ConnectError
      → Random S (Option Bool)
      → Random S Bool
      → Random S (ConnectError ⊎ Unit {0})
  unfolding make
  ensure_exists no_check err exists call = exists >>= λ answer. elim answer [
    | none ↦ pure (inl no_check)
    | some there ↦ make err there call
  ]

  and_then :
      {A : Type 0}
      → Random S (ConnectError ⊎ Unit {0})
      → Random S (ConnectError ⊎ A)
      → Random S (ConnectError ⊎ A)
  and_then m n = m >>= λ r. elim r [ inl err ↦ pure (inl err) | inr _ ↦ n ]

  unfoldable pub new_pub_sub_client : Config → Random S (ConnectError ⊎ PubSubClient M)
  unfolding ensure_exists and_then subscription_options new_pub_sub_client_of make
  new_pub_sub_client cfg =
      let credentials = if Text.◌==◌ cfg.credentials "" then none else some cfg.credentials in
      and_then (make no_client false (service.new_client cfg.project_id credentials)) (
        and_then
          (ensure_exists no_topic_check no_topic (service.topic_exists cfg.topic_id)
            (service.create_topic cfg.topic_id))
          (and_then
            (ensure_exists no_subscription_check no_subscription
              (service.subscription_exists cfg.subscription_id)
              (service.create_subscription cfg.subscription_id cfg.topic_id
                (subscription_options cfg.sub_config)))
            (pure (inr (new_pub_sub_client_of cfg.ack_mode)))))

  unfoldable pub publish_message : M → ℕ → Random S Published
  publish_message msg timeout =
      service.publish msg (if ltb 0 timeout then some timeout else none) >>= λ r. pure (elim r [
        | inl deadline_exceeded ↦ if deadline_exceeded then publish_timeout else publish_failed
        | inr id ↦ published id
      ])
