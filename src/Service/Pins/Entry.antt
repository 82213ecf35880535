-- ===== src/Service/Pins/Entry.antt =====
-- go/internal/service/fdpin.go, and resolveBinary of preview.go: the file that a command starts, when
-- its petition is made and when it is approved.
use Prim.Native.Char.{code}
use fado.Base.{
  ◌/◌, ◌%◌, ℕ, Bool, true, false, not, ◌||◌, ◌&&◌, Option, none, some, List, [], ◌∷◌, ◌++◌, String,
  ltb, if◌then◌else◌, ◌==◌, string_eq, nat_eq, drop,
}
use Prim.Native.String.{slice, find}
use fado.Text.{
  trim_space, len, take_bytes, append_text, has_prefix, contains, trim_prefix, fields, join,
}
use fado.Protocol.{FdPin, Drift}
use fado.Store.{Store, load}
use fado.Service.Host.{Host, OpenFile, FileInfo, Spawn}
use fado.Service.Pins.{blocking}

abbrev pub safe_path : String
safe_path = "/usr/sbin:/usr/bin:/sbin:/bin"

-- filepath.SplitList: the parts between colons.
until_colon : String → String
until_colon String.[] = ""
until_colon (String.◌∷◌ c s) =
    let rest = until_colon s in if code c == 58 then "" else String.◌∷◌ c rest

-- What follows each colon.
after_colons : String → List String
after_colons String.[] = []
after_colons (String.◌∷◌ c s) =
    let rest = after_colons s in if code c == 58 then until_colon s ∷ rest else rest

unfoldable pub split_list : String → List String
unfolding until_colon after_colons
split_list s = if s == "" then [] else until_colon s ∷ after_colons s

unfoldable pub path_of : List String → String
path_of [] = ""
path_of (kv ∷ env) =
    let rest = path_of env in if has_prefix kv "PATH=" then trim_prefix kv "PATH=" else rest

unfoldable pub short_hash : String → String
short_hash h = if ltb 12 (len h) then take_bytes 12 h else if h == "" then "unknown" else h

-- `mode & 0111 != 0`: one of the three bits is set.
abbrev is_executable : FileInfo → Bool
is_executable info =
    not ((info.mode % 2) == 0) || not ((info.mode / 8 % 2) == 0) || not ((info.mode / 64 % 2) == 0)

-- The text up to the first line break.
unfoldable pub first_line : String → String
first_line s = if contains s "\n" then slice s 0 (find s "\n") else s

-- strings.TrimRight with "\r", under strings.TrimSpace, which cuts the same runes and more.
unfoldable pub parse_shebang : OpenFile → Option (String × String)
unfolding first_line
parse_shebang f =
    if not f.seeks || not (has_prefix f.head "#!")
    then none
    else elim (fields (first_line (slice f.head 2 (len f.head)))) [
      | [] ↦ none
      | interp ∷ args ↦ elim args [
        | [] ↦ some (interp, "")
        | second ∷ others ↦
            if interp == "/usr/bin/env"
            then some (second, join " " others)
            else some (interp, join " " (second ∷ others))
      ]
    ]

module _ (os : Host) where
  -- The first directory that has the program.
  search_dirs : String → String → List String → Option String
  search_dirs bin cwd [] = none
  search_dirs bin cwd (d ∷ dirs) =
      let rest = search_dirs bin cwd dirs in
      let dir = if d == "" then "." else d in
      let cand =
        if not (os.is_abs dir) && not (cwd == "")
        then os.path_join (os.path_join cwd dir) bin
        else os.path_join dir bin in
      elim (os.stat cand) [
        | none ↦ rest
        | some info ↦ if not info.is_dir && is_executable info then some cand else rest
      ]

  look_up : String → String → String
  look_up bin cwd = elim (os.look_path bin) [
    | none ↦ append_text "/usr/bin/" bin
    | some lp ↦
        if os.is_abs lp then lp else if not (cwd == "") then os.clean (os.path_join cwd lp) else lp
  ]

  unfoldable pub resolve_binary : String → String → List String → String
  unfolding search_dirs look_up
  resolve_binary bin cwd env =
      if bin == ""
      then ""
      else if os.is_abs bin
      then os.clean bin
      else if contains bin "/"
      then if not (cwd == "") then os.clean (os.path_join cwd bin) else os.clean bin
      else let given = path_of env in
        let own = if given == "" then os.getenv "PATH" else given in
        let path = if own == "" then safe_path else own in
        elim (search_dirs bin cwd (split_list path)) [ some cand ↦ cand | none ↦ look_up bin cwd ]

  unfoldable pub pin_from_file : String → OpenFile → Option FdPin
  unfolding parse_shebang
  pin_from_file path f = elim f.info [
    | none ↦ none
    | some info ↦ if info.is_dir || not f.seeks then none else elim f.sha256 [
      | none ↦ none
      | some sum ↦
          let id : ℕ × ℕ = elim f.identity [ none ↦ (0, 0) | some pair ↦ pair ] in
          let resolved : String = elim (os.eval_symlinks path) [ none ↦ path | some p ↦ p ] in
          let script = parse_shebang f in
          some (record {
            path = path;
            resolved = resolved;
            sha256 = sum;
            dev = id.0;
            ino = id.1;
            size = info.size;
            mode = info.mode;
            is_script = elim script [ none ↦ false | some pair ↦ true ];
            interpreter = elim script [ none ↦ "" | some pair ↦ pair.0 ];
            interp_arg = elim script [ none ↦ "" | some pair ↦ pair.1 ];
          })
    ]
  ]

  unfoldable pub snapshot_entry : List String → String → Option FdPin
  unfolding pin_from_file resolve_binary
  snapshot_entry [] cwd = none
  snapshot_entry (bin ∷ args) cwd =
      if trim_space bin == ""
      then none
      else let path = resolve_binary bin cwd (append_text "PATH=" safe_path ∷ []) in
        elim (os.open_file path) [ none ↦ none | some f ↦ pin_from_file path f ]

  -- The comparison of the pinned file with the live one.
  unfoldable pub pin_drift : FdPin → FdPin → Option Drift
  pin_drift pin live =
      if not (live.sha256 == pin.sha256)
      then some (
          blocking (
            append_text "entrypoint content changed since petition (" (
              append_text (short_hash pin.sha256)
                (append_text " -> " (append_text (short_hash live.sha256) ")")))))
      else if not (pin.ino == 0) && (not (live.dev == pin.dev) || not (live.ino == pin.ino))
      then some (blocking "entrypoint replaced since petition (binary swap or symlink redirect)")
      else none

  abbrev entry_is : String → String → Drift
  entry_is path what = blocking (append_text "entrypoint at " (append_text path what))

  -- `none` where the file is verified; a file that Seek fails on was refused when it was hashed.
  unfoldable pub open_verified : FdPin → Option Drift
  unfolding pin_from_file pin_drift
  open_verified pin = if pin.path == "" then none else elim (os.open_file pin.path) [
    | none ↦ some (entry_is pin.path " is gone at approval")
    | some f ↦ elim (pin_from_file pin.path f) [
      | none ↦ some (entry_is pin.path " is unreadable at approval")
      | some live ↦ pin_drift pin live
    ]
  ]

  unfoldable pub check_fd_drift : String → Store → Option Drift
  check_fd_drift rid s = elim (load rid s) [
    | none ↦ none
    | some rec ↦ elim rec.fd [
      | none ↦ none
      | some pin ↦ if pin.path == "" then none else open_verified pin
    ]
  ]

  unfoldable pub resolve_interp : String → String
  resolve_interp interp =
      if interp == ""
      then ""
      else if os.is_abs interp || contains interp "/"
      then interp
      else elim (os.look_path interp) [ none ↦ interp | some lp ↦ lp ]

  -- `argv[1:]`; an empty argv is stopped before this.
  unfoldable pub pinned_cmd : List String → String → List (String × String) → FdPin → Spawn
  unfolding resolve_interp
  pinned_cmd argv cwd env pin =
      if pin.is_script && not (pin.interpreter == "")
      then record {
        name = resolve_interp pin.interpreter;
        args = fields pin.interp_arg ++ "/dev/fd/3" ∷ drop 1 argv;
        dir = cwd;
        env = env;
        fd = some pin;
      }
      else record { name = "/dev/fd/3"; args = drop 1 argv; dir = cwd; env = env; fd = some pin }
