-- ===== src/Crawl/Env.antt =====
-- The file system around src/archive_tool/state.py. Its answers are a parameter of each operation,
-- fixed while one operation runs.
use healtharchive_backend.Base.{ℕ, String, Bool, true, false, ◌≡◌, Option, none, some}
use healtharchive_backend.Json.{Json}

-- The answer of a call that may raise `OSError`.
pub data Answer : Type 0 where
  answer : Bool → Answer
  os_error : Answer

-- What `.archive_state.json` holds: nothing, text that is no JSON, or a value.
pub data StateFile : Type 0 where
  absent : StateFile
  unreadable : StateFile
  holds : Json → StateFile

pub record Env : Type 0 where
  -- `Path(p).is_dir()`
  pub is_dir : String → Answer
  -- `str(Path(p).resolve())`, or an exception
  pub resolve : String → Option String
  -- `str(Path(p))`
  pub plain : String → String
  -- `Path(p).stat().st_mtime` in nanoseconds, or an `OSError`
  pub mtime : String → Option ℕ
  -- A write of the state file succeeds (`none`), or fails and leaves this behind.
  pub broken_write : Option StateFile

-- `is_dir` with an `OSError` taken for "no".
unfoldable pub accessible : Env → String → Bool
accessible e p = elim (e.is_dir p) [ answer b ↦ b | os_error ↦ false ]

-- The resolved path, or the path as it stands where that fails.
unfoldable pub canonical : Env → String → String
canonical e p = elim (e.resolve p) [ none ↦ e.plain p | some c ↦ c ]

-- The modification time, 0 where it cannot be read.
unfoldable pub mtime_of : Env → String → ℕ
mtime_of e p = elim (e.mtime p) [ none ↦ 0 | some t ↦ t ]

-- A file system at rest: a resolved path names the same directory, and resolves to itself.
pub record IsSettled (e : Env) : Type 0 where
  pub canonical_idem : (p : String) → canonical e (canonical e p) ≡ canonical e p
  pub accessible-canonical : (p : String) → accessible e (canonical e p) ≡ accessible e p
  pub mtime-canonical : (p : String) → mtime_of e (canonical e p) ≡ mtime_of e p
  -- What was seen as a directory can be looked at again without an `OSError`.
  pub answers : (p : String) → accessible e p ≡ true → e.is_dir p ≡ answer true
