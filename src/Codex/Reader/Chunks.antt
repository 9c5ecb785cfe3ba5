-- ===== src/Codex/Reader/Chunks.antt =====
-- How a file is cut into reads does not matter: lines are whole, and none is lost or read twice.
use claude_dbus.Prelude.{
  String, ℕ, zero, suc, ◌+◌, ◌≤◌, ◌≡◌, refl, sym, ap, ◌∙◌, List, [], ◌∷◌, ◌++◌, append_assoc,
  append-nil, Option, none, some, Bool, true, false, not, eq_refl, eqb, eqb_refl, ltb,
  if◌then◌else◌, length, length-append, all, arith, Bool-cases, inl, inr,
}
use claude_dbus.Json.{Value}
use claude_dbus.Core.Telemetry.{UsageReport}
use claude_dbus.Codex.Telemetry.{Parser}
use claude_dbus.Codex.Reader.{
  Reader, OpenFile, observed, pushed, scan, is_baseline, take_chunk, read_path,
}

abbrev pub drop : ℕ → List ℕ → List ℕ
drop zero xs = xs
drop (suc n) [] = []
drop (suc n) (x ∷ xs) = drop n xs

drop-append : (n : ℕ) (xs ys : List ℕ) → n ≤ length xs → drop n (xs ++ ys) ≡ drop n xs ++ ys
drop-append zero xs ys h = refl
drop-append (suc n) [] ys h = absurd (omega arith)
drop-append (suc n) (x ∷ xs) ys h = drop-append n xs ys (omega arith)

drop-length : (xs ys : List ℕ) → drop (length xs) (xs ++ ys) ≡ ys
drop-length [] ys = refl
drop-length (x ∷ xs) ys = drop-length xs ys

length-drop : (n : ℕ) (xs : List ℕ) → n ≤ length xs → n + length (drop n xs) ≡ length xs
length-drop zero xs h = omega arith
length-drop (suc n) [] h = absurd (omega arith)
length-drop (suc n) (x ∷ xs) h = omega (arith, length-drop n xs (omega arith))

-- The regular file with these contents.
abbrev pub regular : ℕ → List ℕ → OpenFile
regular ino contents = record {
  ino = ino;
  len = length contents;
  rest = λ offset. some (drop offset contents);
}

abbrev pub no_newline : List ℕ → Bool
no_newline = all λ byte. not (eqb byte b'\n')

no_newline_snoc :
    (line : List ℕ) (x : ℕ)
    → no_newline line ≡ true
    → eqb x b'\n' ≡ false
    → no_newline (line ++ x ∷ []) ≡ true
no_newline_snoc [] x h e = ground arith
no_newline_snoc (y ∷ line) x h e = ground (arith, no_newline_snoc line x)

pushed-append :
    (r : Option UsageReport) (rs ss : List UsageReport) → pushed r (rs ++ ss) ≡ pushed r rs ++ ss
pushed-append none rs ss = refl
pushed-append (some r) rs ss = refl

module _ (from_slice : List ℕ → Option Value) where
  abbrev then_scan :
      Bool → Parser × List UsageReport × List ℕ → List ℕ → Parser × List UsageReport × List ℕ
  then_scan baseline (p, rs, line) ys =
      let (q, ss, left) = scan from_slice p baseline line ys in (q, rs ++ ss, left)

  scan-append :
      (p : Parser) (b : Bool) (line xs ys : List ℕ)
      → scan from_slice p b line (xs ++ ys) ≡ then_scan b (scan from_slice p b line xs) ys
  unfolding scan
  scan-append p b line [] ys = refl
  scan-append p b line (x ∷ xs) ys =
      let line' = if eqb x b'\n' then [] else line ++ x ∷ [] in
      let next : Parser × Option UsageReport =
        if eqb x b'\n' then observed from_slice p b (from_slice line) else (p, none) in
      let before = scan from_slice next.0 b line' xs in
      let after = scan from_slice before.0 b before.2 ys in
      ap (λ (t : Parser × List UsageReport × List ℕ). (t.0, pushed next.1 t.1, t.2))
        (scan-append next.0 b line' xs ys)
      ∙ ap (λ (rs : List UsageReport). (after.0, rs, after.2))
          (pushed-append next.1 before.1 after.1)

  -- What is left over after the last line feed holds none.
  scan_left :
      (p : Parser) (b : Bool) (line xs : List ℕ)
      → no_newline line ≡ true
      → no_newline (scan from_slice p b line xs).2 ≡ true
  unfolding scan
  scan_left p b line [] h = h
  scan_left p b line (x ∷ xs) h = elim (Bool-cases (eqb x b'\n')) [
    | inl e ↦ rw e (scan_left (observed from_slice p b (from_slice line)).0 b [] xs refl)
    | inr e ↦ rw e (scan_left p b (line ++ x ∷ []) xs (no_newline_snoc line x h e))
  ]

  -- Bytes with no line feed are carried along.
  scan_carry :
      (p : Parser) (b : Bool) (line xs : List ℕ)
      → no_newline xs ≡ true
      → scan from_slice p b line xs ≡ (p, [], line ++ xs)
  unfolding scan
  scan_carry p b line [] h = rw append-nil refl
  scan_carry p b line (x ∷ xs) h =
      let e : eqb x b'\n' ≡ false = ground arith in
      rw (e, scan_carry p b (line ++ x ∷ []) xs (ground arith), append_assoc) refl

  -- The fragment is read again with each chunk, and that changes nothing.
  scan_resumed :
      (p : Parser) (b : Bool) (left ys : List ℕ)
      → no_newline left ≡ true
      → scan from_slice p b [] (left ++ ys) ≡ scan from_slice p b left ys
  scan_resumed p b left ys h = scan-append p b [] left ys ∙ (rw (scan_carry p b [] left h) refl)

  -- The reader follows this file: what it has consumed is a part of the contents.
  pub record Follows (r : Reader) (path : String) (ino : ℕ) (contents : List ℕ) : Type 0 where
    pub same_path : r.path ≡ some path
    pub same_inode : r.inode ≡ ino
    pub consumed : r.offset ≤ length contents
    pub partial : no_newline r.fragment ≡ true

  not_baseline :
      (r : Reader) (path : String) (ino : ℕ) (xs : List ℕ)
      → Follows r path ino xs
      → is_baseline r path (regular ino xs) ≡ false
  unfolding is_baseline
  not_baseline r path ino xs f =
      rw (f.same_path, eq_refl path, f.same_inode, eqb_refl ino)
        (unread r.offset (length xs) f.consumed)
    where
      unread : (n m : ℕ) → n ≤ m → ltb m n ≡ false
      unread n m h = ground arith

  -- One read of a file that is followed.
  read_followed :
      (r : Reader) (path : String) (ino : ℕ) (xs : List ℕ)
      → Follows r path ino xs
      → read_path from_slice r path (some (regular ino xs))
        ≡ take_chunk from_slice r false (some (drop r.offset xs))
  unfolding read_path
  read_followed r path ino xs f = rw (not_baseline r path ino xs f) refl

  two_chunks :
      (r : Reader) (c d : List ℕ)
      → no_newline r.fragment ≡ true
      → let (r1, a) = take_chunk from_slice r false (some c) in
        let (r2, b) = take_chunk from_slice r1 false (some d) in
        ◌≡◌ {A = Reader × List UsageReport}
          (take_chunk from_slice r false (some (c ++ d)))
          (r2, a ++ b)
  unfolding take_chunk
  two_chunks r c d h =
      let first = scan from_slice r.parser false [] (r.fragment ++ c) in
      let left : no_newline first.2 ≡ true = scan_left r.parser false [] (r.fragment ++ c) refl in
      let whole : scan from_slice r.parser false [] (r.fragment ++ (c ++ d))
          ≡ then_scan false first d =
        ap (scan from_slice r.parser false []) (sym (append_assoc r.fragment c d))
        ∙ scan-append r.parser false [] (r.fragment ++ c) d in
      let sizes : r.offset + length (c ++ d) ≡ r.offset + length c + length d =
        omega (arith, length-append c d) in
      rw (whole, scan_resumed first.0 false first.2 d left, sizes) refl

  still-Follows :
      (r : Reader) (path : String) (ino : ℕ) (xs ys : List ℕ)
      → Follows r path ino xs
      → Follows (take_chunk from_slice r false (some (drop r.offset xs))).0 path ino (xs ++ ys)
  unfolding take_chunk
  still-Follows r path ino xs ys f = record {
    same_path = f.same_path;
    same_inode = f.same_inode;
    consumed = omega (arith, length-drop r.offset xs f.consumed, length-append xs ys);
    partial = scan_left r.parser false [] (r.fragment ++ drop r.offset xs) refl;
  }

  offset_after :
      (r : Reader) (xs : List ℕ)
      → r.offset ≤ length xs
      → (take_chunk from_slice r false (some (drop r.offset xs))).0.offset ≡ length xs
  unfolding take_chunk
  offset_after r xs h = length-drop r.offset xs h

  -- When a followed file grows, reading it before and after gives the reports of one read after, in
  -- the same order, and leaves the reader in the same state.
  pub read_in_two :
      (r : Reader) (path : String) (ino : ℕ) (xs ys : List ℕ)
      → Follows r path ino xs
      → let (r1, a) = read_path from_slice r path (some (regular ino xs)) in
        let (r2, b) = read_path from_slice r1 path (some (regular ino (xs ++ ys))) in
        ◌≡◌ {A = Reader × List UsageReport}
          (read_path from_slice r path (some (regular ino (xs ++ ys))))
          (r2, a ++ b)
  read_in_two r path ino xs ys f =
      let f' : Follows r path ino (xs ++ ys) = record {
        same_path = f.same_path;
        same_inode = f.same_inode;
        partial = f.partial;
        consumed = omega (arith, f.consumed, length-append xs ys);
      } in
      let one = read_followed r path ino xs f in
      let all_at_once = read_followed r path ino (xs ++ ys) f' in
      let r1 = (take_chunk from_slice r false (some (drop r.offset xs))).0 in
      let second = read_followed r1 path ino (xs ++ ys) (still-Follows r path ino xs ys f) in
      rw
        (
          all_at_once,
          one,
          second,
          offset_after r xs f.consumed,
          drop-length xs ys,
          drop-append r.offset xs ys f.consumed,
        )
        (two_chunks r (drop r.offset xs) ys f.partial)
