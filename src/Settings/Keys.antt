-- ===== src/Settings/Keys.antt =====
-- `Get` and `Set` of pkg/config/config.go: reading and setting one value by its key. What reflection
-- sees of the configuration is a tree of its fields with their YAML tags.
pub mod Written
use tmctl.Base.{
  String, Bool, true, false, ◌||◌, Option, none, some, List, [], ◌∷◌, Result, ok, err, panic, ◌>>=◌,
  wrap, ◌<>◌, ◌==◌, if◌then◌else◌, String_eq, split,
}
use tmctl.Disk.{Disk, Read, found, missing, failed}
use tmctl.Settings.{
  Config, BrokerConfig, TmConfig, Docker, InMemoryBrokerConfig, RedisBrokerConfig, Host, blank,
  config_path, save,
}

mutual
  -- A field's value. A pointer to a struct is `nil_pointer` where it is `nil`.
  pub data Node : Type 0 where
    text : String → Node
    flag : Bool → Node
    struct : Members → Node
    pointer : Members → Node
    nil_pointer : Node

  -- The fields of a struct, each with its tag.
  pub data Members : Type 0 where
    done : Members
    member : String → Node → Members → Members

-- The test of a tag against a key.
abbrev pub tag_is : String → String → Bool
unfolding ◌<>◌
tag_is tag key = tag == key || tag == key <> ",omitempty"

abbrev one_key : List String → Bool
one_key (k ∷ []) = true
one_key ks = false

-- The loop over the keys: the first one that a field has. The field is read with that key and those
-- after it.
unfoldable pub first_match : (String → List String → Option String) → List String → String
first_match read [] = ""
first_match read (k ∷ ks) = elim (read k (k ∷ ks)) [ some s ↦ s | none ↦ first_match read ks ]

unfoldable mutual
  unfolding first_match

  pub read_value : Node → List String → String
  read_value (text s) keys = if one_key keys then s else ""
  read_value (flag b) keys = ""
  read_value (struct ms) keys = first_match (read_member ms) keys
  read_value (pointer ms) keys = first_match (read_member ms) keys
  read_value nil_pointer keys = ""

  pub read_member : Members → String → List String → Option String
  read_member done key keys = none
  read_member (member tag node ms) key keys =
      if tag_is tag key then some (read_value node keys) else read_member ms key keys

-- The last key of a path sets a text and nothing else.
abbrev set_text : String → Node → Node
set_text value (text s) = text value
set_text value node = node

-- A path that goes on needs a struct: `NumField` of any other type panics, that of a pointer too.
unfoldable mutual
  pub set_node : List String → String → Node → Result Node
  set_node keys value (struct ms) = set_value keys value ms >>= λ ns. ok (struct ns)
  set_node keys value node = panic

  pub set_value : List String → String → Members → Result Members
  set_value keys value done = ok done
  set_value [] value (member tag node ms) = panic
  set_value (k ∷ []) value (member tag node ms) =
      let rest = set_value (k ∷ []) value ms >>= λ ns. ok (member tag node ns) in
      if tag_is tag k then ok (member tag (set_text value node) ms) else rest
  set_value (k ∷ j ∷ ks) value (member tag node ms) =
      let deeper = set_node (j ∷ ks) value node in
      set_value (k ∷ j ∷ ks) value ms >>= λ ns.
      if tag_is tag k then (deeper >>= λ n. ok (member tag n ns)) else ok (member tag node ns)

abbrev memory_node : Option InMemoryBrokerConfig → Node
memory_node none = nil_pointer
memory_node (some m) = pointer (
    member "buffer-size" (text m.buffer_size)
      (member "produce-timeout" (text m.produce_timeout) done))

abbrev redis_node : Option RedisBrokerConfig → Node
redis_node none = nil_pointer
redis_node (some r) = pointer (
    member "address" (text r.address) (
      member "username" (text r.username) (
        member "password" (text r.password) (
          member "tls-enabled,omitempty" (flag r.tls_enabled)
            (member "skip-verify,omitempty" (flag r.skip_verify) done)))))

unfoldable pub broker_members : BrokerConfig → Members
broker_members b = member "image,omitempty" (text b.image) (
    member "version" (text b.version) (
      member "memory,omitempty" (memory_node b.memory) (
        member "redis,omitempty" (redis_node b.redis)
          (member "config-polling-period,omitempty" (text b.config_polling_period) done))))

-- The fields of the configuration, in their order.
unfoldable pub config_members : Config → Members
unfolding broker_members
config_members c =
    let triggermesh =
      member "version" (text c.triggermesh.components_version)
        (member "broker" (struct (broker_members c.triggermesh.broker)) done) in
    member "-" (text c.config_home) (
      member "context" (text c.context) (
        member "schemaRegistry" (text c.schema_registry) (
          member "triggermesh" (struct triggermesh)
            (member "docker" (struct (member "timeout" (text c.docker.start_timeout) done)) done))))

-- The text at a place of a struct, and the fields of the struct at one.
abbrev text_of : Node → String
text_of (text s) = s
text_of node = ""

abbrev members_of : Node → Members
members_of (struct ms) = ms
members_of node = done

abbrev after : Members → Members
after done = done
after (member tag node ms) = ms

abbrev first : Members → Node
first done = nil_pointer
first (member tag node ms) = node

-- The configuration with the texts of a tree that has its shape. No path sets what is behind a pointer.
unfoldable pub with_members : Members → Config → Config
with_members ms c =
    let tm = members_of (first (after (after (after ms)))) in
    let b = members_of (first (after tm)) in
    record {
      config_home = text_of (first ms);
      context = text_of (first (after ms));
      schema_registry = text_of (first (after (after ms)));
      triggermesh = record {
        components_version = text_of (first tm);
        broker = record c.triggermesh.broker {
          image = text_of (first b);
          version = text_of (first (after b));
          config_polling_period = text_of (first (after (after (after (after b)))));
        };
      };
      docker = record {
        start_timeout = text_of (first (members_of (first (after (after (after (after ms)))))));
      };
    }

unfoldable pub value_at : String → Config → String
unfolding read_value config_members split
value_at key c = read_value (struct (config_members c)) (split b'.' key)

unfoldable pub with_value : String → String → Config → Result Config
unfolding set_value config_members with_members split
with_value key value c =
    set_value (split b'.' key) value (config_members c) >>= λ ms. ok (with_members ms c)

module _ (d : Disk) (host : Host d) where
  abbrev read_config : Read d.Bytes → Result Config
  read_config (found b) = host.unmarshal b (blank host.home)
  read_config missing = err "file does not exist"
  read_config (failed e) = err e

  unfoldable pub load_default_config : d.State → Result Config
  load_default_config s = read_config (d.read s (config_path host.home))

  -- `Get`, for a key that is not empty.
  unfoldable pub get : String → d.State → Result String
  unfolding load_default_config value_at
  get key s = wrap "unable to load config" (load_default_config s) >>= λ c. ok (value_at key c)

  abbrev saved_value : Result Config → d.State → Result (Unit {0}) × d.State
  saved_value (ok c) s = save d host c s
  saved_value (err e) s = (err e, s)
  saved_value panic s = (panic, s)

  unfoldable pub set : String → String → d.State → Result (Unit {0}) × d.State
  unfolding load_default_config with_value
  set key value s =
      saved_value (wrap "unable to load config" (load_default_config s) >>= with_value key value) s
