-- ===== src/Config/Loaded.antt =====
-- config.go: what a configuration that LoadFromEnvironment returns satisfies.
use fileserver_mcp.Base.{
  [], Text, codes, ◌=ᵗ◌, text_eq_iff, trim_space, Bool, true, false, not, ◌&&◌, Option, none, some,
  is_positive, some_inj, ◌≡◌, ◌↔◌, ◌⊎◌, inl, inr, refl, sym, ap, subst, arith, Bool-cases,
  Option-cases, ok,
}
use fileserver_mcp.FilePath.{is_abs, dot}
use fileserver_mcp.Fs.Limits.{validate_limits}
use fileserver_mcp.Config.{
  Failure, Loading, loaded, refused, ◌>>=◌, refuse_if, Config, parse_bool, read_only_profile,
  configured_root, cwd_option, limit_setting, flag_setting, validate, load_from_environment,
  filesystem_limits_from_config, default_config,
}

>>=-eq-loaded {ℓ κ} :
    {V : Type ℓ} {W : Type κ} (first : Loading V) (next : V → Loading W) {w : W}
    → (first >>= next) ≡ loaded w
    → (v : V) × (first ≡ loaded v) × (next v ≡ loaded w)
>>=-eq-loaded (refused failure) next whole = cc
>>=-eq-loaded (loaded v) next whole = (v, refl, whole)

refuse_if-eq-loaded {ℓ} :
    {A : Type ℓ} (b : Bool) (e : Failure) (k : Loading A) {a : A}
    → (refuse_if b e >>= λ _. k) ≡ loaded a
    → (b ≡ false) × (k ≡ loaded a)
refuse_if-eq-loaded true e k h = cc
refuse_if-eq-loaded false e k h = (refl, h)

-- The root is the variable's, and rooted, or the working directory
-- where MCP_ALLOW_CWD_ROOT is set to true; every
-- limit is positive; and the server is read-only exactly if MCP_READ_ONLY says so.
pub record IsUsable (env : Text → Option Text) (c : Config) : Type 0 where
  pub root : env (codes "MCP_ROOT") ≡ some c.filesystem.root_path
  pub rooted :
      (is_abs c.filesystem.root_path ≡ true)
      ⊎ ((c.filesystem.root_path ≡ dot) × (env (codes "MCP_ALLOW_CWD_ROOT") ≡ some (codes "true")))
  pub allow_cwd_root :
      (c.filesystem.allow_cwd_root ≡ true)
      ↔ (env (codes "MCP_ALLOW_CWD_ROOT") ≡ some (codes "true"))
  pub limits : validate_limits (filesystem_limits_from_config c) ≡ ok tt
  pub file_limit : is_positive c.filesystem.max_file_size ≡ true
  pub message_limit : is_positive c.server.max_message_bytes ≡ true
  pub argument_limit : is_positive c.server.max_argument_bytes ≡ true
  pub response_limit : is_positive c.server.max_response_bytes ≡ true
  pub read_only :
      ((env (codes "MCP_READ_ONLY") ≡ none) × (c.filesystem.read_only ≡ false))
      ⊎ ((value : Text) × (env (codes "MCP_READ_ONLY") ≡ some value)
          × (parse_bool value ≡ some c.filesystem.read_only))

-- What `validate` has checked.
record Checked (c : Config) : Type 0 where
  rooted :
      (is_abs c.filesystem.root_path ≡ true)
      ⊎ ((c.filesystem.root_path ≡ dot) × (c.filesystem.allow_cwd_root ≡ true))
  limits : validate_limits (filesystem_limits_from_config c) ≡ ok tt
  file_limit : is_positive c.filesystem.max_file_size ≡ true
  message_limit : is_positive c.server.max_message_bytes ≡ true
  argument_limit : is_positive c.server.max_argument_bytes ≡ true
  response_limit : is_positive c.server.max_response_bytes ≡ true

last_check :
    (c : Config) (e : Failure)
    → refuse_if
        (not (is_abs c.filesystem.root_path)
          && not (c.filesystem.root_path =ᵗ dot && c.filesystem.allow_cwd_root))
        e
      ≡ loaded tt
    → (is_abs c.filesystem.root_path ≡ true)
      ⊎ ((c.filesystem.root_path ≡ dot) × (c.filesystem.allow_cwd_root ≡ true))
last_check c e h = elim (Bool-cases (is_abs c.filesystem.root_path)) [
  | inl rooted ↦ inl rooted
  | inr relative ↦ inr (ground (arith, relative, text_eq_iff c.filesystem.root_path dot))
]

validate-Checked : (c : Config) → validate c ≡ loaded tt → Checked c
unfolding validate validate_limits
validate-Checked c h =
    let (named, h1) = refuse_if-eq-loaded (trim_space c.filesystem.root_path =ᵗ []) _ _ h in
    let (file, h2) = refuse_if-eq-loaded (not (is_positive c.filesystem.max_file_size)) _ _ h1 in
    let (write, h3) = refuse_if-eq-loaded (not (is_positive c.filesystem.max_write_bytes)) _ _ h2 in
    let (list, h4) = refuse_if-eq-loaded (not (is_positive c.filesystem.max_list_entries)) _ _ h3 in
    let (copy, h5) = refuse_if-eq-loaded (not (is_positive c.filesystem.max_copy_bytes)) _ _ h4 in
    let (delete, h6) =
      refuse_if-eq-loaded (not (is_positive c.filesystem.max_delete_entries)) _ _ h5 in
    let (message, h7) = refuse_if-eq-loaded (not (is_positive c.server.max_message_bytes)) _ _ h6 in
    let (argument, h8) =
      refuse_if-eq-loaded (not (is_positive c.server.max_argument_bytes)) _ _ h7 in
    let (response, h9) =
      refuse_if-eq-loaded (not (is_positive c.server.max_response_bytes)) _ _ h8 in
    record {
      rooted = last_check c _ h9;
      limits = rw (write, list, copy, delete) refl;
      file_limit = ground (arith, file);
      message_limit = ground (arith, message);
      argument_limit = ground (arith, argument);
      response_limit = ground (arith, response);
    }

config_in : Config → Loading Config → Config
config_in c (loaded c') = c'
config_in c (refused e) = c

text_in : Text → Loading Text → Text
text_in s (loaded t) = t
text_in s (refused e) = s

flag_in : Bool → Loading Bool → Bool
flag_in b (loaded b') = b'
flag_in b (refused e) = b

configured_root-eq_loaded :
    (o : Option Text) {root : Text} → configured_root o ≡ loaded root → o ≡ some root
unfolding configured_root text_in
configured_root-eq_loaded none h = cc
configured_root-eq_loaded (some root') h = ap (λ r. some (text_in root' r)) h

read_only_profile-eq_loaded :
    (o : Option Text) {b : Bool}
    → read_only_profile o ≡ loaded b
    → ((o ≡ none) × (b ≡ false)) ⊎ ((value : Text) × (o ≡ some value) × (parse_bool value ≡ some b))
unfolding read_only_profile flag_in
read_only_profile-eq_loaded none h = inl (refl, sym (ap (flag_in false) h))
read_only_profile-eq_loaded (some value) {b} h = elim (Option-cases (parse_bool value)) [
  | inl bad ↦ ground (arith, bad)
  | inr (b', good) ↦ inr (value, refl, ground (arith, good))
]

-- The option is on exactly where the variable is set to true.
cwd_option-true_iff :
    (o : Option Text) {b : Bool} → cwd_option o ≡ loaded b → (b ≡ true) ↔ (o ≡ some (codes "true"))
unfolding cwd_option flag_in
cwd_option-true_iff none {b} h =
    let off : b ≡ false = sym (ap (flag_in false) h) in
    ((λ on. absurd (ground (arith, off, on))), (λ e. cc))
cwd_option-true_iff (some value) {b} h = elim (Bool-cases (value =ᵗ codes "true")) [
  | inl yes_ ↦
      let same = (text_eq_iff value (codes "true")).0 yes_ in
      ((λ on. ap (λ v. some v) same), (λ e. sym (ap (flag_in false) (rw yes_ at h))))
  | inr no_ ↦ (
    (λ on. absurd (ground (arith, no_, on))),
    (λ e. absurd (ground (arith, no_, (text_eq_iff value (codes "true")).1 (some_inj e)))),
  )
]

module _ (env : Text → Option Text) where
  IsUsable-of :
      (c : Config)
      → configured_root (env (codes "MCP_ROOT")) ≡ loaded c.filesystem.root_path
      → read_only_profile (env (codes "MCP_READ_ONLY")) ≡ loaded c.filesystem.read_only
      → cwd_option (env (codes "MCP_ALLOW_CWD_ROOT")) ≡ loaded c.filesystem.allow_cwd_root
      → validate c ≡ loaded tt
      → IsUsable env c
  IsUsable-of c named profile cwd valid =
      let v = validate-Checked c valid in
      let allowed = cwd_option-true_iff (env (codes "MCP_ALLOW_CWD_ROOT")) cwd in
      record {
        root = configured_root-eq_loaded (env (codes "MCP_ROOT")) named;
        rooted = elim v.rooted [
          | inl rooted ↦ inl rooted
          | inr (here, flag) ↦ inr (here, allowed.0 flag)
        ];
        allow_cwd_root = allowed;
        limits = v.limits;
        file_limit = v.file_limit;
        message_limit = v.message_limit;
        argument_limit = v.argument_limit;
        response_limit = v.response_limit;
        read_only = read_only_profile-eq_loaded (env (codes "MCP_READ_ONLY")) profile;
      }

  -- A configuration that LoadFromEnvironment returns is usable: its root is MCP_ROOT's, and
  -- rooted, or the working directory where MCP_ALLOW_CWD_ROOT is set to true; its limits are positive, and it is read-only
  -- exactly as MCP_READ_ONLY says.
  pub load_from_environment-IsUsable :
      {c : Config} → load_from_environment env ≡ loaded c → IsUsable env c
  unfolding load_from_environment config_in
  load_from_environment-IsUsable {c} h =
      let (root, e1, h1) = >>=-eq-loaded (configured_root (env (codes "MCP_ROOT"))) _ h in
      let (read_only, e2, h2) =
        >>=-eq-loaded (read_only_profile (env (codes "MCP_READ_ONLY"))) _ h1 in
      let (cwd, e3, h3) = >>=-eq-loaded (cwd_option (env (codes "MCP_ALLOW_CWD_ROOT"))) _ h2 in
      let (max_file, e4, h4) =
        >>=-eq-loaded
          (limit_setting env "MCP_MAX_FILE_SIZE" default_config.filesystem.max_file_size) _ h3 in
      let (max_write, e5, h5) =
        >>=-eq-loaded
          (limit_setting env "MCP_MAX_WRITE_BYTES" default_config.filesystem.max_write_bytes) _
          h4 in
      let (max_list, e6, h6) =
        >>=-eq-loaded
          (limit_setting env "MCP_MAX_LIST_ENTRIES" default_config.filesystem.max_list_entries) _
          h5 in
      let (max_copy, e7, h7) =
        >>=-eq-loaded
          (limit_setting env "MCP_MAX_COPY_BYTES" default_config.filesystem.max_copy_bytes) _ h6 in
      let (max_delete, e8, h8) =
        >>=-eq-loaded
          (limit_setting env "MCP_MAX_DELETE_ENTRIES" default_config.filesystem.max_delete_entries)
          _ h7 in
      let (hidden, e9, h9) =
        >>=-eq-loaded
          (flag_setting env "MCP_ALLOW_HIDDEN_FILES" default_config.security.allow_hidden_files) _
          h8 in
      let (unc, e10, h10) =
        >>=-eq-loaded
          (flag_setting env "MCP_ALLOW_UNC_PATHS" default_config.security.allow_unc_paths) _ h9 in
      let (symlinks, e11, h11) =
        >>=-eq-loaded
          (flag_setting env "MCP_FOLLOW_SYMLINKS" default_config.security.follow_symlinks) _ h10 in
      let (debug, e12, h12) =
        >>=-eq-loaded (flag_setting env "MCP_DEBUG" default_config.server.debug) _ h11 in
      let (max_message, e13, h13) =
        >>=-eq-loaded
          (limit_setting env "MCP_MAX_JSONRPC_MESSAGE_BYTES"
            default_config.server.max_message_bytes)
          _ h12 in
      let (max_argument, e14, h14) =
        >>=-eq-loaded
          (limit_setting env "MCP_MAX_TOOL_ARGUMENT_BYTES" default_config.server.max_argument_bytes)
          _ h13 in
      let (max_response, e15, h15) =
        >>=-eq-loaded
          (limit_setting env "MCP_MAX_RESPONSE_BYTES" default_config.server.max_response_bytes) _
          h14 in
      let (u, valid, same) = >>=-eq-loaded (validate _) _ h15 in
      subst (IsUsable env) (ap (config_in c) same) (IsUsable-of _ e1 e2 e3 valid)
