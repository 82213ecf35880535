-- ===== src/Service/Host.antt =====
-- What the operating system and Go's libraries answer the service at one moment: the parameter of
-- go/internal/service. Two moments of a request have two hosts, between which anything may change.
use fado.Base.{ℕ, Bool, Option, List, String, ℤ}
use fado.Protocol.{FdPin}
use fado.Service.Decisions.{Env}

-- os.Stat: `mode` is the permission bits and the flags of fs.FileMode.
pub record FileInfo : Type 0 where
  pub is_dir : Bool
  pub is_regular : Bool
  pub size : ℕ
  pub mode : ℕ

-- A file that is open for reading: Stat, Fstat's device and inode, whether Seek and CopyN work, the
-- SHA-256 of the bytes that are hashed, in hex, and the first 512 bytes.
pub record OpenFile : Type 0 where
  pub info : Option FileInfo
  pub identity : Option (ℕ × ℕ)
  pub seeks : Bool
  pub sha256 : Option String
  pub head : String

-- One entry of a tar archive: its name, the size in its header and its bytes, `none` where they
-- cannot be read.
pub record TarEntry : Type 0 where
  pub name : String
  pub size : ℕ
  pub bytes : Option (List ℕ)

-- A command as os/exec starts it; `fd` is the file that the child has as /dev/fd/3.
pub record Spawn : Type 0 where
  pub name : String
  pub args : List String
  pub dir : String
  pub env : List (String × String)
  pub fd : Option FdPin

-- How a command fails: the exit status of the process, or an error of os/exec.
pub data Failure : Type 0 where
  exited : ℤ → Failure
  broken : String → Failure

-- What a command does: its writes, whether the timer killed it, its failure, and the first challenge
-- link in its output, if there is one.
pub record Outcome : Type 0 where
  pub writes : List (List ℕ)
  pub timed_out : Bool
  pub failure : Option Failure
  pub auth_url : Option String

pub record Host : Type 0 where
  -- the time, the user and the faults of the writes
  pub env : Env
  pub euid : ℕ
  -- strconv.Atoi, os/user.Lookup (the user id or the error's text), os.Getenv, `string(b)`
  pub atoi : String → Option ℤ
  pub lookup_uid : String → Option String
  pub lookup_error : String → String
  pub getenv : String → String
  pub text_of : List ℕ → String
  pub to_lower : String → String
  -- path/filepath, exec.LookPath, the file system
  pub clean : String → String
  pub base : String → String
  pub is_abs : String → Bool
  pub path_join : String → String → String
  pub relative : String → String → Option String
  pub eval_symlinks : String → Option String
  pub look_path : String → Option String
  pub stat : String → Option FileInfo
  pub open_file : String → Option OpenFile
  pub read_file : String → Option (List ℕ)
  pub sha256 : List ℕ → String
  -- gzip and tar over the bytes of an archive: the entries, and whether it ends without an error
  pub untar : List ℕ → Option (List TarEntry × Bool)
  -- os.Getwd, filepath.Glob, os.Lstat (whether it is a directory), and the entries that
  -- filepath.WalkDir visits, `none` where one is visited with an error
  pub getwd : Option String
  pub glob : String → Option (List String)
  pub lstat : String → Option Bool
  pub walk : String → List (Option String)
  -- whether a directory or a file can be made at a path
  pub can_write : String → Bool
  -- git with those arguments in that directory, its standard output
  pub git : String → List String → Option String
  -- newRID, and the chat and the number of the message where a card is posted
  pub new_rid : String
  pub posted : Option (String × ℕ)
  -- os.Getpid, syscall.Getpgrp, Getpgid, and the error text of a SIGSTOP, "" for none
  pub pid : ℤ
  pub own_group : ℤ
  pub group_of : ℤ → Option ℤ
  pub stop_error : ℤ → String
  -- a command that is started
  pub exec : Spawn → Outcome
