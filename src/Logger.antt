-- ===== src/Logger.antt =====
-- src/Logger.h and src/Logger.cpp: the filter that the logger sets, and the size of its files.
pub mod Filter
use find_friend_bot.Base.{
  ℕ, ◌*◌, ◌-◌, ◌^◌, ◌%◌, Bool, ◌&&◌, not, ltb, leb, Option, none, some, List, [], ◌∷◌, Text, codes,
  c_str, Run, ok, fault, Cmd, fail, overflow, pure, ◌>>=◌, ◌>>◌, if◌then◌else◌,
}
use find_friend_bot.Map.{find, assign}

-- `logging::trivial::severity_level`
pub data Severity : Type 0 where
  trace debug info warning error fatal : Severity

-- `str_severity_level`, with the value that `init` gives to each.
abbrev pub str_severity_level : List (Text × Severity)
str_severity_level =
    (codes "trace", trace)
    ∷ (codes "debug", debug)
    ∷ (codes "info", info)
    ∷ (codes "warning", warning)
    ∷ (codes "error", error)
    ∷ (codes "fatal", fatal)
    ∷ []

-- The loop of `init` over `map_severity_`.
unfoldable pub fill_map_severity :
    List (Text × Severity) → List (Text × Severity) → List (Text × Severity)
fill_map_severity [] m = m
fill_map_severity ((name, level) ∷ rest) m = fill_map_severity rest (assign name level m)

-- `map_severity_[level_]`: a key that is not there is put in with 0, which is `trace`.
unfoldable pub severity_of : Text → Severity
unfolding fill_map_severity
severity_of level = elim (find level (fill_map_severity str_severity_level [])) [
  | none ↦ trace
  | some severity ↦ severity
]

-- What the sinks are given: the names and the time stamps, the size of a file in bytes, as a bit
-- pattern, and the filter.
pub record Sinks : Type 0 where
  pub file_name : Text
  pub timestamp_format : Text
  pub rotation_size : ℕ
  pub filter : Severity

-- `Logger(…)`; `rotation_size_ * 1024 * 1024` is computed on `int`s, whose bit patterns are below
-- 2^32.
unfoldable pub init : Text → Text → ℕ → Text → Cmd (Option Sinks) (Unit {0})
unfolding severity_of
init file_name timestamp_format rotation_size level s =
    if not (ltb rotation_size 2048) && not (leb (2 ^ 32 - 2048) rotation_size)
    then fault overflow
    else ok tt (
        some (record {
          file_name = file_name;
          timestamp_format = c_str timestamp_format;
          rotation_size = (rotation_size * 1024 * 1024) % 2 ^ 32;
          filter = severity_of level;
        }))
