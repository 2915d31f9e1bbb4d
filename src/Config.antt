-- ===== src/Config.antt =====
-- internal/config: the configuration from the environment, on a platform whose int has 64 bits.
pub mod Loaded
use fileserver_mcp.Base.{
  ℕ, ◌+◌, ◌*◌, ◌-◌, suc, [], ◌∷◌, ◌++◌, List, Text, codes, ◌=ᵗ◌, trim_space, trim_left, is_space,
  has_prefix, Bool, true, false, not, ◌&&◌, ◌||◌, leb, ltb, ◌==◌, ℤ, pos, negsuc, is_positive,
  Option, none, some, if◌then◌else◌, exceeds, String, ◌≡◌, refl, ◌⊎◌, inl, inr,
}
use fileserver_mcp.FilePath.{is_abs, dot}
use fileserver_mcp.Fs.Limits.{Limits}
use fileserver_mcp.Security.Policy.{Policy}

pub data ErrorCategory : Type 0 where
  missing_root invalid_root root_not_found category_root_not_directory root_not_allowed
        invalid_profile invalid_development_option startup_failed :
      ErrorCategory

-- A ConfigError's category, or the plain error about a variable or a limit.
pub data Failure : Type 0 where
  config_error : ErrorCategory → Failure
  plain_error : Text → Failure

-- `(value, error)` where the error is a Failure.
pub data Loading {ℓ} (Value : Type ℓ) : Type ℓ where
  loaded : Value → Loading Value
  refused : Failure → Loading Value

abbrev pub refuse_if : Bool → Failure → Loading (Unit {0})
refuse_if true failure = refused failure
refuse_if false failure = loaded tt

infixl 5 ◌>>=◌
abbrev pub ◌>>=◌ {ℓ κ} : {V : Type ℓ} {W : Type κ} → Loading V → (V → Loading W) → Loading W
loaded value >>= next = next value
refused failure >>= next = refused failure

infixl 5 ◌>>◌
abbrev pub ◌>>◌ {ℓ} : {W : Type ℓ} → Loading (Unit {0}) → Loading W → Loading W
check >> next = check >>= λ done. next

pub record FilesystemConfig : Type 0 where
  pub root_path : Text
  pub read_only : Bool
  pub allow_cwd_root : Bool
  pub max_file_size : ℤ
  pub max_write_bytes : ℤ
  pub max_list_entries : ℤ
  pub max_copy_bytes : ℤ
  pub max_delete_entries : ℤ

pub record SecurityConfig : Type 0 where
  pub allow_hidden_files : Bool
  pub allow_unc_paths : Bool
  pub follow_symlinks : Bool

pub record ServerConfig : Type 0 where
  pub name : Text
  pub version : Text
  pub debug : Bool
  pub max_message_bytes : ℤ
  pub max_argument_bytes : ℤ
  pub max_response_bytes : ℤ

pub record Config : Type 0 where
  pub filesystem : FilesystemConfig
  pub security : SecurityConfig
  pub server : ServerConfig

abbrev pub default_config : Config
default_config = record {
  filesystem = record {
    root_path = [];
    read_only = false;
    allow_cwd_root = false;
    max_file_size = pos 10_485_760;
    max_write_bytes = pos 10_485_760;
    max_list_entries = pos 1000;
    max_copy_bytes = pos 10_485_760;
    max_delete_entries = pos 1000;
  };
  security = record {
    allow_hidden_files = false;
    allow_unc_paths = false;
    follow_symlinks = false;
  };
  server = record {
    name = codes "flashgate";
    version = codes "0.1.0-dev";
    debug = false;
    max_message_bytes = pos 16_777_216;
    max_argument_bytes = pos 12_582_912;
    max_response_bytes = pos 16_777_216;
  };
}

-- strconv.ParseBool
unfoldable pub one_of : Text → List String → Bool
one_of value [] = false
one_of value (s ∷ ss) = value =ᵗ codes s || one_of value ss

unfoldable pub parse_bool : Text → Option Bool
parse_bool value =
    if one_of value ("1" ∷ "t" ∷ "T" ∷ "TRUE" ∷ "true" ∷ "True" ∷ [])
    then some true
    else if one_of value ("0" ∷ "f" ∷ "F" ∷ "FALSE" ∷ "false" ∷ "False" ∷ [])
    then some false
    else none

-- Decimal digits after the number `n`.
unfoldable pub parse_digits : ℕ → Text → Option ℕ
parse_digits n [] = some n
parse_digits n (c ∷ s) =
    let rest = parse_digits (n * 10 + (c - b'0')) s in
    if leb b'0' c && leb c b'9' then rest else none

unfoldable pub parse_unsigned : Text → Option ℕ
parse_unsigned [] = none
parse_unsigned (c ∷ s) = parse_digits 0 (c ∷ s)

-- A number that fits int64.
unfoldable pub in_range : Option ℕ → Option ℤ
in_range none = none
in_range (some n) = if exceeds n (pos 9_223_372_036_854_775_807) then none else some (pos n)

-- strconv.ParseInt, less the negative numbers: no caller takes one.
unfoldable pub parse_int64 : Text → Option ℤ
parse_int64 [] = none
parse_int64 (c ∷ s) =
    if c == b'+'
    then in_range (parse_unsigned s)
    else if c == b'-'
    then none
    else in_range (parse_unsigned (c ∷ s))

-- The error about a variable's value.
unfoldable pub invalid_value : Text → Failure
invalid_value name = plain_error (codes "invalid " ++ (name ++ codes " value"))

-- parsePositiveInt64 and parsePositiveInt: a negative number is refused as one that does not parse.
unfoldable pub parse_positive : Text → Text → Loading ℤ
parse_positive value name = elim (parse_int64 value) [
  | none ↦ refused (invalid_value name)
  | some n ↦ if is_positive n then loaded n else refused (invalid_value name)
]

unfoldable pub validate : Config → Loading (Unit {0})
validate c = do
  refuse_if (trim_space c.filesystem.root_path =ᵗ []) (config_error invalid_root)
  refuse_if (not (is_positive c.filesystem.max_file_size))
      (plain_error (codes "maximum file size must be greater than zero"))
  refuse_if (not (is_positive c.filesystem.max_write_bytes))
      (plain_error (codes "maximum write size must be greater than zero"))
  refuse_if (not (is_positive c.filesystem.max_list_entries))
      (plain_error (codes "maximum list entries must be greater than zero"))
  refuse_if (not (is_positive c.filesystem.max_copy_bytes))
      (plain_error (codes "maximum copy size must be greater than zero"))
  refuse_if (not (is_positive c.filesystem.max_delete_entries))
      (plain_error (codes "maximum delete entries must be greater than zero"))
  refuse_if (not (is_positive c.server.max_message_bytes))
      (plain_error (codes "maximum JSON-RPC message size must be greater than zero"))
  refuse_if (not (is_positive c.server.max_argument_bytes))
      (plain_error (codes "maximum tool argument size must be greater than zero"))
  refuse_if (not (is_positive c.server.max_response_bytes))
      (plain_error (codes "maximum JSON-RPC response size must be greater than zero"))
  refuse_if
      (not (is_abs c.filesystem.root_path)
        && not (c.filesystem.root_path =ᵗ dot && c.filesystem.allow_cwd_root))
      (config_error invalid_root)

unfoldable pub read_only_profile : Option Text → Loading Bool
read_only_profile none = loaded default_config.filesystem.read_only
read_only_profile (some value) = elim (parse_bool value) [
  | none ↦ refused (config_error invalid_profile)
  | some b ↦ loaded b
]

unfoldable pub cwd_option : Option Text → Loading Bool
cwd_option none = loaded default_config.filesystem.allow_cwd_root
cwd_option (some value) =
    if value =ᵗ codes "true"
    then loaded true
    else if value =ᵗ codes "false"
    then loaded false
    else refused (config_error invalid_development_option)

-- The root's variable: it must be set.
unfoldable pub configured_root : Option Text → Loading Text
configured_root none = refused (config_error missing_root)
configured_root (some root) = loaded root

-- `env` is os.LookupEnv; for os.Getenv a missing variable is empty.
module _ (env : Text → Option Text) where
  unfoldable pub getenv : Text → Text
  getenv name = elim (env name) [ none ↦ [] | some value ↦ value ]

  unfoldable pub limit_setting : String → ℤ → Loading ℤ
  limit_setting name default =
      if getenv (codes name) =ᵗ []
      then loaded default
      else parse_positive (getenv (codes name)) (codes name)

  unfoldable pub flag_setting : String → Bool → Loading Bool
  flag_setting name default =
      if getenv (codes name) =ᵗ []
      then loaded default
      else elim (parse_bool (getenv (codes name))) [
        | none ↦ refused (invalid_value (codes name))
        | some b ↦ loaded b
      ]

  unfoldable pub load_from_environment : Loading Config
  load_from_environment = do
    root ← configured_root (env (codes "MCP_ROOT"))
    read_only ← read_only_profile (env (codes "MCP_READ_ONLY"))
    cwd ← cwd_option (env (codes "MCP_ALLOW_CWD_ROOT"))
    max_file ← limit_setting "MCP_MAX_FILE_SIZE" default_config.filesystem.max_file_size
    max_write ← limit_setting "MCP_MAX_WRITE_BYTES" default_config.filesystem.max_write_bytes
    max_list ← limit_setting "MCP_MAX_LIST_ENTRIES" default_config.filesystem.max_list_entries
    max_copy ← limit_setting "MCP_MAX_COPY_BYTES" default_config.filesystem.max_copy_bytes
    max_delete ← limit_setting "MCP_MAX_DELETE_ENTRIES" default_config.filesystem.max_delete_entries
    hidden ← flag_setting "MCP_ALLOW_HIDDEN_FILES" default_config.security.allow_hidden_files
    unc ← flag_setting "MCP_ALLOW_UNC_PATHS" default_config.security.allow_unc_paths
    symlinks ← flag_setting "MCP_FOLLOW_SYMLINKS" default_config.security.follow_symlinks
    debug ← flag_setting "MCP_DEBUG" default_config.server.debug
    max_message ←
        limit_setting "MCP_MAX_JSONRPC_MESSAGE_BYTES" default_config.server.max_message_bytes
    max_argument ←
        limit_setting "MCP_MAX_TOOL_ARGUMENT_BYTES" default_config.server.max_argument_bytes
    max_response ← limit_setting "MCP_MAX_RESPONSE_BYTES" default_config.server.max_response_bytes
    let cfg : Config = record {
      filesystem = record {
        root_path = root;
        read_only = read_only;
        allow_cwd_root = cwd;
        max_file_size = max_file;
        max_write_bytes = max_write;
        max_list_entries = max_list;
        max_copy_bytes = max_copy;
        max_delete_entries = max_delete;
      };
      security = record {
        allow_hidden_files = hidden;
        allow_unc_paths = unc;
        follow_symlinks = symlinks;
      };
      server = record {
        name = default_config.server.name;
        version = default_config.server.version;
        debug = debug;
        max_message_bytes = max_message;
        max_argument_bytes = max_argument;
        max_response_bytes = max_response;
      };
    }
    validate cfg
    loaded cfg

-- server_boot.go
abbrev pub filesystem_limits_from_config : Config → Limits
filesystem_limits_from_config cfg = record {
  max_write_bytes = cfg.filesystem.max_write_bytes;
  max_list_entries = cfg.filesystem.max_list_entries;
  max_copy_bytes = cfg.filesystem.max_copy_bytes;
  max_delete_entries = cfg.filesystem.max_delete_entries;
}

abbrev pub security_policy_from_config : Config → Policy
security_policy_from_config cfg = record {
  allow_hidden_files = cfg.security.allow_hidden_files;
  allow_unc_paths = cfg.security.allow_unc_paths;
  follow_symlinks = cfg.security.follow_symlinks;
}

-- What a run of the functions above unfolds.
unfoldable pub runs : Unit {0}
unfolding ◌=ᵗ◌ has_prefix trim_space trim_left is_space is_abs one_of parse_bool parse_digits
    parse_unsigned in_range parse_int64 invalid_value parse_positive validate read_only_profile
    cwd_option configured_root getenv limit_setting flag_setting load_from_environment
runs = tt
