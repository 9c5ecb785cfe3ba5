-- ===== src/Codex/Reader.antt =====
-- agent-dbus-service/src/providers/codex/telemetry.rs, `Reader`: follows a rollout file by its bytes.
-- What the file system answers is an argument, and so is `serde_json::from_slice`.
pub mod Chunks
use claude_dbus.Prelude.{
  String, ℕ, ◌+◌, List, [], ◌∷◌, ◌++◌, Option, none, some, Bool, true, false, not, ◌||◌, ◌==◌, eqb,
  ltb, if◌then◌else◌, length,
}
use claude_dbus.Json.{Value}
use claude_dbus.Core.Telemetry.{UsageReport, next_u64}
use claude_dbus.Codex.Telemetry.{Parser, default_parser, observe}

pub record Reader : Type 0 where
  pub path : Option String
  pub inode : ℕ
  pub offset : ℕ
  pub fragment : List ℕ
  pub parser : Parser

abbrev pub default_reader : Reader
default_reader = record {
  path = none;
  inode = 0;
  offset = 0;
  fragment = [];
  parser = default_parser;
}

-- An open file: its metadata, and what `seek` and `read_to_end` give from an offset, if they succeed.
pub record OpenFile : Type 0 where
  pub ino : ℕ
  pub len : ℕ
  pub rest : ℕ → Option (List ℕ)

abbrev pub pushed : Option UsageReport → List UsageReport → List UsageReport
pushed none rs = rs
pushed (some r) rs = r ∷ rs

-- A first sight of the file, another file under the path, or a file that shrank.
unfoldable pub is_baseline : Reader → String → OpenFile → Bool
is_baseline r path file = elim r.path [
  | none ↦ true
  | some old ↦ not (old == path) || not (eqb r.inode file.ino) || ltb file.len r.offset
]

-- The counters of a file that is no longer followed are dropped, in a new epoch.
abbrev pub forget : Option String → Parser → Parser
forget none p = p
forget (some old) p = record p { epoch = next_u64 p.epoch; totals = []; last = [] }

unfoldable pub rebase : Reader → String → OpenFile → Reader
rebase r path file = record {
  path = some path;
  inode = file.ino;
  offset = 0;
  fragment = [];
  parser = forget r.path r.parser;
}

-- `read_path` and the lines that it hands to the parser.
module _ (from_slice : List ℕ → Option Value) where
  abbrev pub observed : Parser → Bool → Option Value → Parser × Option UsageReport
  observed p baseline none = (p, none)
  observed p baseline (some entry) = observe p entry baseline

  -- The loop over the fragment: `line` holds the bytes from `consumed` to the current index.
  unfoldable pub scan : Parser → Bool → List ℕ → List ℕ → Parser × List UsageReport × List ℕ
  scan p baseline line [] = (p, [], line)
  scan p baseline line (byte ∷ bytes) =
      let line' = if eqb byte b'\n' then [] else line ++ byte ∷ [] in
      let (p', report) =
        if eqb byte b'\n' then observed p baseline (from_slice line) else (p, none) in
      let (p'', reports, left) = scan p' baseline line' bytes in (p'', pushed report reports, left)

  unfoldable pub take_chunk : Reader → Bool → Option (List ℕ) → Reader × List UsageReport
  unfolding scan
  take_chunk r baseline none = (r, [])
  take_chunk r baseline (some chunk) =
      let (p, reports, left) = scan r.parser baseline [] (r.fragment ++ chunk) in
      (record r { offset = r.offset + length chunk; fragment = left; parser = p }, reports)

  -- `None` stands for a file that cannot be opened or has no metadata.
  unfoldable pub read_path : Reader → String → Option OpenFile → Reader × List UsageReport
  unfolding is_baseline rebase take_chunk
  read_path r path none = (r, [])
  read_path r path (some file) =
      let baseline = is_baseline r path file in
      let r' = if baseline then rebase r path file else r in
      take_chunk r' baseline (file.rest r'.offset)

  -- `read`, given what `codex_session_file` found and how it opens
  unfoldable pub read : Reader → Option (String × Option OpenFile) → Reader × List UsageReport
  unfolding read_path
  read r none = (r, [])
  read r (some (path, file)) = read_path r path file
