-- ===== src/Codex/Search/Found.antt =====
-- The search of the sessions finds the rollout files of a session, and no other file.
use mathlib.Core.List.{◌++◌ as append}
use claude_dbus.Prelude.{
  String, ◌≡◌, ◌⊎◌, refl, List, [], ◌∷◌, true, eq_iff, mem, mem-append, arith, Bool-cases, inl, inr,
}
use claude_dbus.Codex.Search.{
  Entry, Folder, directory, file, other, unreadable, empty, unknown, holds, joined, is_rollout,
  collect, collect_entry,
}

-- A file of this name lies at this path, at any depth.
mutual
  pub LiesIn : String → Folder → String → String → Type 0
  LiesIn dir unreadable path name = ⊥
  LiesIn dir empty path name = ⊥
  LiesIn dir (unknown rest) path name = LiesIn dir rest path name
  LiesIn dir (holds entry rest) path name = LiesAt dir entry path name ⊎ LiesIn dir rest path name

  pub LiesAt : String → Entry → String → String → Type 0
  LiesAt dir (directory n folder) path name = LiesIn (joined dir n) folder path name
  LiesAt dir (file n) path name = (joined dir n ≡ path) × (n ≡ name)
  LiesAt dir (other n) path name = ⊥

-- A rollout file of the session.
pub record IsRolloutOf (session_id dir : String) (folder : Folder) (path : String) : Type 0 where
  pub name : String
  pub lies : LiesIn dir folder path name
  pub named : is_rollout session_id name ≡ true

-- What was found before is kept.
mutual
  unfolding collect

  collect-keeps :
      (session_id dir : String) (folder : Folder) (matches : List String) (path : String)
      → mem path matches ≡ true
      → mem path (collect session_id dir folder matches) ≡ true
  collect-keeps session_id dir unreadable matches path h = h
  collect-keeps session_id dir empty matches path h = h
  collect-keeps session_id dir (unknown rest) matches path h =
      collect-keeps session_id dir rest matches path h
  collect-keeps session_id dir (holds entry rest) matches path h =
      collect-keeps session_id dir rest (collect_entry session_id dir entry matches) path
        (entry-keeps session_id dir entry matches path h)

  entry-keeps :
      (session_id dir : String) (entry : Entry) (matches : List String) (path : String)
      → mem path matches ≡ true
      → mem path (collect_entry session_id dir entry matches) ≡ true
  entry-keeps session_id dir (directory n folder) matches path h =
      collect-keeps session_id (joined dir n) folder matches path h
  entry-keeps session_id dir (file n) matches path h =
      ground (arith, mem-append path matches (joined dir n ∷ []))
  entry-keeps session_id dir (other n) matches path h = h

-- Every rollout file of the session is found.
mutual
  unfolding collect LiesIn

  pub collect-finds :
      (session_id dir : String) (folder : Folder) (matches : List String) (path name : String)
      → is_rollout session_id name ≡ true
      → LiesIn dir folder path name
      → mem path (collect session_id dir folder matches) ≡ true
  collect-finds session_id dir unreadable matches path name r l = elim l [ ]
  collect-finds session_id dir empty matches path name r l = elim l [ ]
  collect-finds session_id dir (unknown rest) matches path name r l =
      collect-finds session_id dir rest matches path name r l
  collect-finds session_id dir (holds entry rest) matches path name r (inl l) =
      collect-keeps session_id dir rest (collect_entry session_id dir entry matches) path
        (entry-finds session_id dir entry matches path name r l)
  collect-finds session_id dir (holds entry rest) matches path name r (inr l) =
      collect-finds session_id dir rest (collect_entry session_id dir entry matches) path name r l

  entry-finds :
      (session_id dir : String) (entry : Entry) (matches : List String) (path name : String)
      → is_rollout session_id name ≡ true
      → LiesAt dir entry path name
      → mem path (collect_entry session_id dir entry matches) ≡ true
  entry-finds session_id dir (directory n folder) matches path name r l =
      collect-finds session_id (joined dir n) folder matches path name r l
  entry-finds session_id dir (file n) matches path name r l =
      let named : is_rollout session_id n ≡ true = rw l.1 r in
      rw named (
        ground
          (arith, l.0, mem-append path matches (joined dir n ∷ []), eq_iff (joined dir n) path))
  entry-finds session_id dir (other n) matches path name r l = elim l [ ]

-- And nothing else is.
mutual
  unfolding collect LiesIn

  pub collect-only :
      (session_id dir : String) (folder : Folder) (matches : List String) (path : String)
      → mem path (collect session_id dir folder matches) ≡ true
      → (mem path matches ≡ true)
        ⊎ ((name : String) × LiesIn dir folder path name × (is_rollout session_id name ≡ true))
  collect-only session_id dir unreadable matches path h = inl h
  collect-only session_id dir empty matches path h = inl h
  collect-only session_id dir (unknown rest) matches path h =
      collect-only session_id dir rest matches path h
  collect-only session_id dir (holds entry rest) matches path h =
      elim (collect-only session_id dir rest (collect_entry session_id dir entry matches) path h) [
        | inr (name, l, r) ↦ inr (name, inr l, r)
        | inl earlier ↦ elim (entry-only session_id dir entry matches path earlier) [
          | inl old ↦ inl old
          | inr (name, l, r) ↦ inr (name, inl l, r)
        ]
      ]

  entry-only :
      (session_id dir : String) (entry : Entry) (matches : List String) (path : String)
      → mem path (collect_entry session_id dir entry matches) ≡ true
      → (mem path matches ≡ true)
        ⊎ ((name : String) × LiesAt dir entry path name × (is_rollout session_id name ≡ true))
  entry-only session_id dir (directory n folder) matches path h =
      collect-only session_id (joined dir n) folder matches path h
  entry-only session_id dir (other n) matches path h = inl h
  entry-only session_id dir (file n) matches path h = elim (Bool-cases (is_rollout session_id n)) [
    | inr out ↦ inl (rw out at h)
    | inl named ↦
        let new : mem path (append matches (joined dir n ∷ [])) ≡ true = rw named at h in
        elim (Bool-cases (mem path matches)) [
          | inl old ↦ inl old
          | inr fresh ↦ inr (
            n,
            (
              ground
                  (arith, mem-append path matches (joined dir n ∷ []), eq_iff (joined dir n) path),
              refl,
            ),
            named,
          )
        ]
  ]
