-- ===== src/Share/Errors.antt =====
-- How the handlers answer errors of the system: `CheckOsError` and `HandleErrno` of share/http.go, with
-- what they use of Go's package os.
use tasked.Base.{◌==◌, if◌then◌else◌, ℕ, ◌≡◌, Bool, true, false, ◌||◌, Option, none, some, arith}

-- What an error is at its core: a number of the system, one of the two errors of os, or any other.
pub data Cause : Type 0 where
  errno : ℕ → Cause
  err_not_exist err_permission unknown : Cause

-- `os.PathError`, `os.SyscallError` and `os.LinkError`, or none of them.
pub data Wrapper : Type 0 where
  path_error syscall_error link_error bare : Wrapper

pub record OsError : Type 0 where
  pub wrapper : Wrapper
  pub cause : Cause

abbrev pub enoent : ℕ
enoent = 2

abbrev pub eperm : ℕ
eperm = 1

abbrev pub eacces : ℕ
eacces = 13

abbrev pub eisdir : ℕ
eisdir = 21

abbrev pub einval : ℕ
einval = 22

-- `os.IsNotExist`
abbrev pub is_not_exist : Cause → Bool
is_not_exist (errno n) = n == enoent
is_not_exist err_not_exist = true
is_not_exist _ = false

-- `os.IsPermission`
abbrev pub is_permission : Cause → Bool
is_permission (errno n) = n == eacces || n == eperm
is_permission err_permission = true
is_permission _ = false

unfoldable pub handle_errno : ℕ → ℕ
handle_errno n =
    if n == enoent || n == eperm || n == eacces || n == eisdir
    then 404
    else if n == einval
    then 400
    else 500

-- The status for an error that the three types hold, where that is a number.
abbrev pub errno_status : Wrapper → Cause → ℕ
errno_status bare c = 500
errno_status _ (errno n) = handle_errno n
errno_status _ c = 500

unfoldable pub os_error_status : OsError → ℕ
os_error_status e =
    if is_not_exist e.cause || is_permission e.cause then 404 else errno_status e.wrapper e.cause

-- `CheckOsError`: the status of the error response, where there is one.
unfoldable pub check_os_error : Option OsError → Option ℕ
check_os_error none = none
check_os_error (some e) = some (os_error_status e)

-- The client is told that nothing was found just where the file is missing, closed to the server, or a
-- directory; everything else is an error of the server, but for an argument that the system refuses.
pub os_error_status_lem :
    (e : OsError)
    → os_error_status e ≡ (
        if is_not_exist e.cause || is_permission e.cause then 404 else elim e.wrapper [
          | bare ↦ 500
          | _ ↦ elim e.cause [
            | errno n ↦ if n == eisdir then 404 else if n == einval then 400 else 500
            | _ ↦ 500
          ]
        ])
unfolding os_error_status handle_errno
os_error_status_lem e = ground arith
