-- ===== src/Boot/Start.antt =====
-- cmd/server/server_boot.go, run and runWithIO over the default dependencies: the configuration,
-- the file system, the registry, the router and the server, one after the other, none of which is
-- nil. The warning about a development root is the only line for stderr.
use fileserver_mcp.Base.{
  ℕ, [], ◌∷◌, List, Text, Bytes, codes, ◌=ᵗ◌, Bool, Bool-cases, true, false, ◌&&◌, Option, none,
  some, if◌then◌else◌, Result, ok, err, ◌≡◌, ◌≢◌, inl, inr, refl, sym, ap, ◌∙◌, Result-cases,
}
use fileserver_mcp.FilePath.{dot}
use fileserver_mcp.Protocol.{Json, Response}
use fileserver_mcp.Os.{Os}
use fileserver_mcp.Config.{
  Failure, config_error, plain_error, Loading, loaded, refused, Config, parse_bool,
  load_from_environment, security_policy_from_config, filesystem_limits_from_config,
}
use fileserver_mcp.Config.Loaded.{load_from_environment-IsUsable}
use fileserver_mcp.Fs.Limits.{LocalFileSystem, new_local_file_system_with_policy_and_limits}
use fileserver_mcp.Tools.Execute.{local_file_system}
use fileserver_mcp.Router.{Handler}
use fileserver_mcp.Transport.{Input, Writer}
use fileserver_mcp.Server.Serving.{RunEnd, run}
use fileserver_mcp.Boot.{
  ServerError, capabilities_from_read_only, create_tool_registry, create_router,
  categorize_root_error, server_options_from_config,
}
use fileserver_mcp.Boot.ReadOnly.{run-read_only}

-- What stands outside the program: the operating system, what another process does during a Move,
-- the tools' definitions, JSON's and UTF-8's conversions, and the reader, writer and context that
-- main passes on.
pub record World (D W : Type 0) : Type 0 where
  pub os : Os D
  pub drift : D → D
  pub definition : Text → Json
  pub text_of : Bytes → Text
  pub marshal : Json → Text
  pub text_length : Json → ℕ
  pub parse : Bytes → Option Json
  pub encode : Response → Result Bytes
  pub out : Writer W
  pub cancelled : ℕ → Bool
  pub env : Text → Option Text

-- How runWithIO comes to its end: before the server runs, or as the server's loop does.
pub data Ending : Type 0 where
  declines : ServerError → Ending
  serves : RunEnd → Ending

-- What runWithIO leaves: its end, the lines on stderr, the disk and the output.
pub record Outcome (D W : Type 0) : Type 0 where
  pub ending : Ending
  pub notes : List Text
  pub disk : D
  pub output : W

-- config.CategoryOf of an error of LoadFromEnvironment
unfoldable pub refusal : Failure → ServerError
refusal (config_error category) = record { is_canceled = false; category = some category }
refusal (plain_error message) = record { is_canceled = false; category = none }

abbrev pub development_cwd_warning : Text
development_cwd_warning = codes "flashgate-mcp: warning: development CWD root enabled"

unfoldable pub warnings : Config → List Text
warnings cfg =
    if cfg.filesystem.root_path =ᵗ dot && cfg.filesystem.allow_cwd_root
    then development_cwd_warning ∷ []
    else []

value_of : Text → Option Text → Text
value_of default none = default
value_of default (some value) = value

module _ {D W : Type 0} (world : World D W) where
  unfoldable pub router_of : Config → LocalFileSystem → List (Handler D)
  router_of cfg filesystem =
      create_router world.text_of world.marshal cfg.server.name cfg.server.version (
        create_tool_registry world.definition (local_file_system world.os world.drift filesystem)
          cfg.filesystem.max_file_size (capabilities_from_read_only cfg.filesystem.read_only))

  -- The loop of the server that runWithIO makes, for at most `fuel` turns.
  unfoldable pub serve : Config → ℕ → Input → D → W → LocalFileSystem → RunEnd × D × W
  serve cfg fuel input d w filesystem =
      run world.text_length (router_of cfg filesystem) (server_options_from_config cfg) world.parse
        world.encode world.out world.cancelled fuel 0 input d w

  unfoldable pub outcome_of : Config → RunEnd × D × W → Outcome D W
  outcome_of cfg (end, d, w) = record {
    ending = serves end;
    notes = warnings cfg;
    disk = d;
    output = w;
  }

  -- runWithIO, with a configuration or without one.
  unfoldable pub start_with : ℕ → Input → D → W → Loading Config → Outcome D W
  start_with fuel input d w (refused failure) = record {
    ending = declines (refusal failure);
    notes = [];
    disk = d;
    output = w;
  }
  start_with fuel input d w (loaded cfg) =
      elim (new_local_file_system_with_policy_and_limits world.os d cfg.filesystem.root_path
        (security_policy_from_config cfg) (filesystem_limits_from_config cfg)) [
          | err e ↦ record {
            ending =
                declines
                  (record { is_canceled = false; category = some (categorize_root_error e) });
            notes = [];
            disk = d;
            output = w;
          }
          | ok filesystem ↦ outcome_of cfg (serve cfg fuel input d w filesystem)
        ]

  unfoldable pub run_with_io : ℕ → Input → D → W → Outcome D W
  run_with_io fuel input d w = start_with fuel input d w (load_from_environment world.env)

  -- A configuration of the environment is read-only where MCP_READ_ONLY does not read as false.
  loaded-read_only :
      (value : Text) {cfg : Config}
      → world.env (codes "MCP_READ_ONLY") ≡ some value
      → parse_bool value ≢ some false
      → load_from_environment world.env ≡ loaded cfg
      → cfg.filesystem.read_only ≡ true
  unfolding value_of
  loaded-read_only value {cfg} set other h =
      elim (load_from_environment-IsUsable world.env h).read_only [
        | inl (unset, off) ↦ cc
        | inr (value', set', parsed) ↦
            let same : value' ≡ value = ap (value_of value) (sym set' ∙ set) in
            elim (Bool-cases cfg.filesystem.read_only) [
              | inl on ↦ on
              | inr off ↦ elim (other (ap parse_bool (sym same) ∙ parsed ∙ ap some off)) [ ]
            ]
      ]

  outcome_of-disk : (cfg : Config) (r : RunEnd × D × W) → (outcome_of cfg r).disk ≡ r.1
  unfolding outcome_of
  outcome_of-disk cfg r = refl

  serve-disk :
      (cfg : Config) (fuel : ℕ) (input : Input) (d : D) (w : W) (filesystem : LocalFileSystem)
      → cfg.filesystem.read_only ≡ true
      → (serve cfg fuel input d w filesystem).1 ≡ d
  unfolding serve router_of
  serve-disk cfg fuel input d w filesystem on =
      rw (serve, router_of, on)
        (run-read_only world.definition (local_file_system world.os world.drift filesystem)
          cfg.filesystem.max_file_size cfg.server.name cfg.server.version world.text_of
          world.marshal world.text_length (server_options_from_config cfg) world.parse world.encode
          world.out world.cancelled fuel 0 input d w)

  start_with-disk :
      (fuel : ℕ) (input : Input) (d : D) (w : W) (loading : Loading Config)
      → ((cfg : Config) → loading ≡ loaded cfg → cfg.filesystem.read_only ≡ true)
      → (start_with fuel input d w loading).disk ≡ d
  unfolding start_with
  start_with-disk fuel input d w (refused failure) on = refl
  start_with-disk fuel input d w (loaded cfg) on =
      elim (Result-cases (
        new_local_file_system_with_policy_and_limits world.os d cfg.filesystem.root_path
          (security_policy_from_config cfg) (filesystem_limits_from_config cfg))) [
            | inl (filesystem, opened) ↦
                rw (start_with, opened)
                  (outcome_of-disk cfg _ ∙ serve-disk cfg fuel input d w filesystem (on cfg refl))
            | inr (e, not_opened) ↦ rw (start_with, not_opened) refl
          ]

  -- Started with MCP_READ_ONLY set to a text that does not read as false, the program leaves the
  -- disk as it was: whatever else the environment holds, whatever the client sends, and however the
  -- start or the server's loop ends.
  pub run_with_io-read_only :
      (value : Text) (fuel : ℕ) (input : Input) (d : D) (w : W)
      → world.env (codes "MCP_READ_ONLY") ≡ some value
      → parse_bool value ≢ some false
      → (run_with_io fuel input d w).disk ≡ d
  unfolding run_with_io
  run_with_io-read_only value fuel input d w set other =
      start_with-disk fuel input d w (load_from_environment world.env)
        (λ cfg h. loaded-read_only value set other h)
