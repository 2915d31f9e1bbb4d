-- ===== src/Boot.antt =====
-- cmd/server: how main puts the program together (tools_boot.go, router_boot.go, server_boot.go,
-- cli.go, main.go). `definition` gives each tool's definition.
pub mod ReadOnly
pub mod ExitCodes
pub mod Start
use fileserver_mcp.Base.{
  ℕ, String, [], ◌∷◌, List, Text, Bytes, codes, ◌=ᵗ◌, Bool, true, false, not, ◌&&◌, ℤ, Option, none,
  some, if◌then◌else◌, GuardError, root_not_directory, outside_root, hidden_path_denied,
  unc_path_denied, symlink_denied, reparse_point_denied, Error, guard, os, not_exist, permission,
}
use fileserver_mcp.Config.{
  ErrorCategory, root_not_found, category_root_not_directory, root_not_allowed, startup_failed,
  Config,
}
use fileserver_mcp.Server.Serving.{Options}
use fileserver_mcp.Protocol.{Json}
use fileserver_mcp.Tools.Execute
use fileserver_mcp.Tools.Execute.{FileSystem}
use fileserver_mcp.Tools.Registry.{Tool, Registry, new_registry}
use fileserver_mcp.Tools.Registry
use fileserver_mcp.Tools.Handlers.{call, list_tools}
use fileserver_mcp.Initialize.{initialize}
use fileserver_mcp.Router.{Handler}
use fileserver_mcp.Router

pub record ToolCapabilities : Type 0 where
  pub filesystem_write : Bool

abbrev pub capabilities_from_read_only : Bool → ToolCapabilities
capabilities_from_read_only read_only = record { filesystem_write = not read_only }

module _ {D : Type 0} (definition : Text → Json) where
  -- A tool under its name, with its definition.
  unfoldable pub tool : String → (D → Json → Execute.Reply × D) → Tool D
  tool name execute = record {
    name = codes name;
    definition = definition (codes name);
    execute = execute;
  }

  unfoldable pub read_tools : FileSystem D → ℤ → Registry D
  read_tools filesystem max_file_size =
      Registry.register
        (Registry.register
          (Registry.register new_registry
            (tool "list_directory" (λ d. Execute.list_directory filesystem d)))
          (tool "read_file" (λ d. Execute.read_file filesystem d max_file_size)))
        (tool "get_path_info" (λ d. Execute.get_path_info filesystem d))

  unfoldable pub create_tool_registry : FileSystem D → ℤ → ToolCapabilities → Registry D
  create_tool_registry filesystem max_file_size capabilities =
      let read_only = read_tools filesystem max_file_size in
      if not capabilities.filesystem_write
      then read_only
      else Registry.register
          (Registry.register
            (Registry.register
              (Registry.register
                (Registry.register read_only
                  (tool "write_file" (λ d. Execute.write_file filesystem d)))
                (tool "create_directory" (λ d. Execute.create_directory filesystem d)))
              (tool "delete_path" (λ d. Execute.delete_path filesystem d)))
            (tool "copy_path" (λ d. Execute.copy_path filesystem d)))
          (tool "move_path" (λ d. Execute.move_path filesystem d))

unfoldable pub create_router :
    {D : Type 0} → (Bytes → Text) → (Json → Text) → Text → Text → Registry D → List (Handler D)
create_router text_of marshal name version registry =
    Router.register
      (Router.register
        (Router.register [] (record {
          method = codes "initialize";
          handle = λ d params. initialize name version d params;
        }))
        (record { method = codes "tools/list"; handle = λ d params. list_tools registry d params }))
      (record {
        method = codes "tools/call";
        handle = λ d params. call text_of marshal registry d params;
      })

unfoldable pub categorize_root_error : Error → ErrorCategory
categorize_root_error (os not_exist) = root_not_found
categorize_root_error (guard root_not_directory) = category_root_not_directory
categorize_root_error (os permission) = root_not_allowed
categorize_root_error (guard hidden_path_denied) = root_not_allowed
categorize_root_error (guard unc_path_denied) = root_not_allowed
categorize_root_error (guard symlink_denied) = root_not_allowed
categorize_root_error (guard reparse_point_denied) = root_not_allowed
categorize_root_error (guard outside_root) = root_not_allowed
categorize_root_error _ = startup_failed

-- An error of the server: errors.Is(err, context.Canceled), and config.CategoryOf(err).
pub record ServerError : Type 0 where
  pub is_canceled : Bool
  pub category : Option ErrorCategory

pub data CliError : Type 0 where
  invalid_cli_arguments : CliError
  server_error : ServerError → CliError

unfoldable pub is_configuration : Option ErrorCategory → Bool
is_configuration none = false
is_configuration (some startup_failed) = false
is_configuration (some _) = true

-- runCLI where the server runs; `served` is the server's error, if it has one.
unfoldable pub run_server : Option ServerError → ℕ × Option CliError
run_server none = (0, none)
run_server (some e) =
    if e.is_canceled
    then (0, none)
    else if is_configuration e.category
    then (3, some (server_error e))
    else (1, some (server_error e))

unfoldable pub run_one : Text → ℕ × Option CliError
run_one arg =
    if arg =ᵗ codes "--version"
    then (0, none)
    else if arg =ᵗ codes "--help"
    then (0, none)
    else if arg =ᵗ codes "-h"
    then (0, none)
    else (2, some invalid_cli_arguments)

unfoldable pub run_cli : List Text → Option ServerError → ℕ × Option CliError
run_cli [] served = run_server served
run_cli (arg ∷ []) served = run_one arg
run_cli (arg ∷ arg2 ∷ []) served =
    if arg =ᵗ codes "--version" && arg2 =ᵗ codes "--verbose"
    then (0, none)
    else (2, some invalid_cli_arguments)
run_cli (arg ∷ arg2 ∷ arg3 ∷ args) served = (2, some invalid_cli_arguments)

unfoldable pub exit_code : ℕ × Option CliError → ℕ
exit_code (code, none) = code
exit_code (code, some invalid_cli_arguments) = 2
exit_code (code, some (server_error e)) = code

-- runMain's exit code
unfoldable pub run_main : List Text → Option ServerError → ℕ
run_main args served = exit_code (run_cli args served)

abbrev pub server_options_from_config : Config → Options
server_options_from_config cfg = record {
  max_message_bytes = cfg.server.max_message_bytes;
  max_argument_bytes = cfg.server.max_argument_bytes;
  max_response_bytes = cfg.server.max_response_bytes;
}
