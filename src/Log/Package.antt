-- ===== src/Log/Package.antt =====
-- log/log.go: the loggers of New, and the package's own logger.
use platforma.Base.{ℕ, String, List, [], Option, none, some, leb, if◌then◌else◌}
use platforma.Log.{Level, level_info}
use platforma.Log.Arguments.{Argument, record_add}
use platforma.Log.Logger.{ContextKey, Entry, context_handle, Method, method_level, method_context}

-- A slog.Logger that New has made: its handler discards what is below its level.
pub record SlogLogger : Type 0 where
  pub level : Level
  pub context_keys : List (String × ContextKey)

unfoldable pub new_logger : Level → List (String × ContextKey) → SlogLogger
new_logger level context_keys = record { level = level; context_keys = context_keys }

unfoldable pub slog_call : SlogLogger → Method → String → List Argument → Option Entry
unfolding context_handle record_add
slog_call l method message args =
    if leb l.level (method_level method)
    then some (
        context_handle l.context_keys (method_context method)
          (record { level = method_level method; message = message; attrs = record_add args }))
    else none

-- The interface logger; the times are those at which a wide event begins and is written.
abbrev pub Logger : Type 0
Logger = Method → String → List Argument → (begin now : ℕ) → Option Entry

pub record Package : Type 0 where
  pub logger : Logger

-- The package as it starts.
unfoldable pub initial_package : Package
unfolding new_logger slog_call
initial_package = record {
  logger =
      λ method message args begin now. slog_call (new_logger level_info []) method message args;
}

unfoldable pub set_default : Logger → Package → Package
set_default l p = record p { logger = l }

-- The package's functions Debug to ErrorContext.
unfoldable pub package_call :
    Package → Method → String → List Argument → (begin now : ℕ) → Option Entry
package_call p method message args begin now = p.logger method message args begin now
