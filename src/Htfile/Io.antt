-- ===== src/Htfile/Io.antt =====
-- The calls of the system that htfile/htfile.go makes. A handler is a tree: a call, and for each answer of
-- the system what the handler does then. So the system may answer as it likes.
pub mod Confined
pub mod Run
use tasked.Base.{Runes, ℕ, Bool, Option, none, some, List}
use tasked.Share.Errors.{OsError}

-- What `Sys` of a file holds.
pub record Stat : Type 0 where
  pub uid : ℕ
  pub gid : ℕ
  pub access_time : ℕ
  pub change_time : ℕ

-- `os.FileInfo`
pub record FileInfo : Type 0 where
  pub name : Runes
  pub size : ℕ
  pub mode : ℕ
  pub mod_time : ℕ
  pub is_dir : Bool
  pub stat : Option Stat

pub data Result (A : Type 0) : Type 0 where
  ok : A → Result A
  fails : OsError → Result A

-- `io.Copy`, of a text, to a file: it may fail when so many bytes were read.
pub data Written : Type 0 where
  all_written : Written
  write_fails : (read : ℕ) → OsError → Written

-- `lstat` is of a path, `stat`, `readdir`, `read`, `read_head`, `seek` and `matches` of an open file,
-- `write` of a created one. `mkdir` and `create` are given no mode, since that is always `os.ModePerm`.
pub data Call : Type 0 where
  lstat open_file stat readdir read read_head seek : Runes → Call
  mkdir mkdir_all create remove_all : Runes → Call
  matches : (path : Runes) (expr : Runes) → Call
  write : (path : Runes) (text : Runes) → Call
  chmod : (path : Runes) (mode : ℕ) → Call
  chown : (path : Runes) (uid : ℕ) (gid : ℕ) → Call
  rename : (from : Runes) (to : Runes) → Call
  current_user : Call
  lookup_user lookup_group : Runes → Call
  user_name group_name : ℕ → Call

abbrev pub Answer : Call → Type 0
Answer (lstat p) = Result FileInfo
Answer (open_file p) = Option OsError
Answer (stat p) = Result FileInfo
Answer (readdir p) = Result (List FileInfo)
Answer (read p) = Result Runes
Answer (read_head p) = Result Runes
Answer (seek p) = Option OsError
Answer (mkdir p) = Option OsError
Answer (mkdir_all p) = Option OsError
Answer (create p) = Option OsError
Answer (remove_all p) = Option OsError
Answer (matches p expr) = Bool
Answer (write p text) = Written
Answer (chmod p mode) = Option OsError
Answer (chown p uid gid) = Option OsError
Answer (rename from to) = Option OsError
Answer current_user = Option ℕ
Answer (lookup_user name) = Option ℕ
Answer (lookup_group name) = Option ℕ
Answer (user_name uid) = Option Runes
Answer (group_name gid) = Option Runes

-- `stopped` is a recursion that was cut off by its fuel.
pub data Io (A : Type 0) : Type 0 where
  done : A → Io A
  call : (c : Call) → (Answer c → Io A) → Io A
  stopped : Io A

infixl 5 ◌>>=◌
unfoldable pub ◌>>=◌ : {A B : Type 0} → Io A → (A → Io B) → Io B
done a >>= f = f a
call c k >>= f = call c λ a. k a >>= f
stopped >>= f = stopped

-- How a handler goes on when a call failed, and when it did not.
abbrev pub on_error : {A : Type 0} → Option OsError → (OsError → Io A) → Io A → Io A
on_error none f k = k
on_error (some e) f k = f e

abbrev pub on_result : {A B : Type 0} → Result A → (OsError → Io B) → (A → Io B) → Io B
on_result (ok a) f k = k a
on_result (fails e) f k = f e

-- The type assertion on `Sys`.
abbrev pub on_stat : {A : Type 0} → Option Stat → Io A → (Stat → Io A) → Io A
on_stat none m k = m
on_stat (some s) m k = k s

unfoldable pub ask : (c : Call) → Io (Answer c)
ask c = call c done
