-- ===== src/Tests/Machines.antt =====
-- A host with one program, one work tree and one file that is sealed; its user is 900.
use fado.Base.{
  Option, ℕ, none, some, [], ◌∷◌, true, false, pos, List, String, ◌==◌, if◌then◌else◌, string_eq,
  ◌||◌,
}
use fado.Text.{has_prefix, append_text, trim_prefix}
use fado.Service.Decisions.{Env}
use fado.Store.Files.{works}
use fado.Service.Host.{Host, FileInfo, OpenFile, Outcome, exited}
use fado.Text.{trim_prefix, append_text, has_prefix}

abbrev clock : Env
clock = record {
  uid = 900;
  now = 60000000000;
  now_unix = 60;
  ts = "t";
  fault = λ n. works;
  cont_error = λ pgid. "";
}

abbrev plain_file : FileInfo
plain_file = record { is_dir = false; is_regular = true; size = 2; mode = 493 }

abbrev directory : FileInfo
directory = record { is_dir = true; is_regular = false; size = 0; mode = 493 }

abbrev pub program : OpenFile
program = record {
  info = some plain_file;
  identity = some (8, 77);
  seeks = true;
  sha256 = some "5a";
  head = "#!/bin/sh -e\n";
}

abbrev info_of : String → Option FileInfo
info_of path =
    if path == "/w"
    then some directory
    else if path == "/w/in.txt" || path == "/usr/bin/make"
    then some plain_file
    else none

abbrev pub bytes_of : String → Option (List ℕ)
bytes_of path =
    if path == "/w/in.txt" || path == "/usr/bin/make"
    then some (104 ∷ 105 ∷ [])
    else if path == "/s/sealed/q1.tar.gz"
    then some (1 ∷ [])
    else none

abbrev ran : Outcome
ran = record {
  writes = (111 ∷ 107 ∷ []) ∷ [];
  timed_out = false;
  failure = some (exited (pos 3));
  auth_url = none;
}

abbrev pub quiet : Host
quiet = record {
  env = clock;
  euid = 900;
  atoi = λ s. none;
  lookup_uid = λ s. none;
  lookup_error = λ s. "unknown user";
  getenv = λ s. "";
  text_of = λ b. "ok";
  to_lower = λ s. s;
  clean = λ s. s;
  base = λ s. s;
  is_abs = λ s. has_prefix s "/";
  path_join = λ a b. append_text a (append_text "/" b);
  relative = λ base path. some (trim_prefix path "/w/");
  eval_symlinks = λ s. some s;
  look_path = λ s. some (append_text "/usr/bin/" s);
  stat = info_of;
  open_file = λ s. if s == "/usr/bin/make" then some program else none;
  read_file = bytes_of;
  sha256 = λ b. "c0";
  untar =
      λ b. some (record { name = "in.txt"; size = 2; bytes = some (104 ∷ 105 ∷ []) } ∷ [], true);
  getwd = some "/w";
  glob = λ p. none;
  lstat = λ p. some (p == "/etc");
  walk = λ p. some "/etc" ∷ none ∷ some "/etc/hosts" ∷ [];
  can_write = λ path. true;
  git = λ cwd args. some "main";
  new_rid = "q1";
  posted = some ("5", 12);
  pid = pos 40;
  own_group = pos 40;
  group_of = λ p. some (pos 70);
  stop_error = λ p. "";
  exec = λ cmd. ran;
}
