-- ===== src/Codex/Cache/Lru.antt =====
-- The cache's invariant, the end of its loop, and which entry it drops.
use claude_dbus.Prelude.{
  String, ℕ, suc, ◌≤◌, ◌<◌, ◌≡◌, refl, subst, sym, ap, ◌∙◌, List, [], ◌∷◌, ◌++◌, Option, none, some,
  true, false, ◌==◌, eq_iff, eq_refl, ltb, if◌then◌else◌, is_some, mem, mem-append, mem-without,
  without, Distinct, without-Distinct, snoc-Distinct, without_missing, arith, Option-cases, inl,
  inr,
}
use native.Mathlib.Decide.{dec_le}
use claude_dbus.Dict
use claude_dbus.Dict.{Dict}
use claude_dbus.Dict.Laws.{
  empty_of_none, get-insert, get-remove, len-insert, len-remove-le, len-remove-lt,
}
use claude_dbus.Dict.Distinct.{IsDistinct, insert-IsDistinct, remove-IsDistinct}
use claude_dbus.Codex.Cache.{BoundedCache, touch, get, evict, insert, remove, new}

module _ {ℓ} {T : Type ℓ} where
  -- The queue holds the keys of the entries, each once, and there are no more than the limit.
  pub record IsValid (c : BoundedCache T) : Type ℓ where
    pub distinct : IsDistinct c.entries
    pub once : Distinct c.order
    pub same : (k : String) → mem k c.order ≡ is_some (Dict.get c.entries k)
    pub bounded : Dict.len c.entries ≤ c.max_entries

  pub new-IsValid : (max : ℕ) → IsValid (new {T = T} max)
  unfolding new Dict.get
  new-IsValid max = record { distinct = tt; once = tt; same = λ k. refl; bounded = omega arith }

  mem-touch :
      (c : BoundedCache T) (key k : String)
      → mem k (touch c key).order ≡ (if key == k then true else mem k c.order)
  unfolding touch
  mem-touch c key k =
      rw (mem-append k (without key c.order) (key ∷ []), mem-without key k c.order) (ground arith)

  touch-Distinct :
      (c : BoundedCache T) (key : String) → Distinct c.order → Distinct (touch c key).order
  unfolding touch
  touch-Distinct c key h =
      snoc-Distinct key (without key c.order)
        (mem-without key key c.order ∙ (rw (eq_refl key) refl)) (without-Distinct key c.order h)

  pub get-IsValid : (c : BoundedCache T) (key : String) → IsValid c → IsValid (get c key).0
  unfolding get
  get-IsValid c key v = elim (Option-cases (Dict.get c.entries key)) [
    | inl e ↦ rw e v
    | inr (value, e) ↦ rw e (record {
      distinct = unfold touch in v.distinct;
      once = touch-Distinct c key v.once;
      same = λ k. mem-touch c key k ∙ ground (arith, eq_iff key k, v.same k);
      bounded = unfold touch in v.bounded;
    })
  ]

  pub remove-IsValid : (c : BoundedCache T) (key : String) → IsValid c → IsValid (remove c key)
  unfolding remove
  remove-IsValid c key v = record {
    distinct = remove-IsDistinct c.entries key v.distinct;
    once = without-Distinct key c.order v.once;
    same = λ k. ground (arith, mem-without key k c.order, get-remove c.entries key k, v.same k);
    bounded = omega (arith, len-remove-le c.entries key, v.bounded);
  }

  evict_fits :
      (max : ℕ) (es : Dict T) (o : List String) → Dict.len es ≤ max → evict max es o ≡ some (es, o)
  unfolding evict
  evict_fits max es [] h = ground arith
  evict_fits max es (k ∷ o) h = ground arith

  evict_one :
      (max : ℕ) (es : Dict T) (k : String) (o : List String) (t : T)
      → Dict.len es ≡ suc max
      → Dict.get es k ≡ some t
      → evict max es (k ∷ o) ≡ some (Dict.remove es k, o)
  unfolding evict
  evict_one max es k o t h e =
      let more : ltb max (Dict.len es) ≡ true = ground arith in
      let less : Dict.len (Dict.remove es k) ≤ max = omega (arith, len-remove-lt es k t e) in
      rw more (evict_fits max (Dict.remove es k) o less)

  -- What `insert` left: everything that it was given and all else, or all but the key that stood at
  -- the front of the queue of a full cache.
  pub data Outcome (c c' : BoundedCache T) (key : String) (value : T) : Type ℓ where
    kept :
        ((k : String)
          → Dict.get c'.entries k ≡ (if key == k then some value else Dict.get c.entries k))
        → Outcome c c' key value
    dropped :
        (oldest : String) (rest : List String)
        → c.order ≡ oldest ∷ rest
        → Dict.len c.entries ≡ c.max_entries
        → Dict.get c.entries key ≡ none
        → ((k : String)
            → Dict.get c'.entries k ≡ (
                if oldest == k
                then none
                else if key == k
                then some value
                else Dict.get c.entries k))
        → Outcome c c' key value

  pub record Inserted (c : BoundedCache T) (key : String) (value : T) : Type ℓ where
    pub result : BoundedCache T
    pub returns : insert c key value ≡ some result
    pub valid : IsValid result
    pub limit : result.max_entries ≡ c.max_entries
    pub outcome : Outcome c result key value

  -- The cache before its loop runs.
  grown : BoundedCache T → String → T → BoundedCache T
  grown c key value = touch (record c { entries = Dict.insert c.entries key value }) key

  grown-same :
      (c : BoundedCache T) (key : String) (value : T) (k : String)
      → IsValid c
      → mem k (grown c key value).order ≡ is_some (Dict.get (grown c key value).entries k)
  unfolding grown
  grown-same c key value k v =
      mem-touch (record c { entries = Dict.insert c.entries key value }) key k
      ∙ (unfold touch in ground (arith, get-insert c.entries key k value, v.same k))

  grown-Distinct :
      (c : BoundedCache T) (key : String) (value : T)
      → IsValid c
      → Distinct (grown c key value).order
  unfolding grown
  grown-Distinct c key value v =
      touch-Distinct (record c { entries = Dict.insert c.entries key value }) key v.once

  insert_fits :
      (c : BoundedCache T) (key : String) (value : T)
      → IsValid c
      → Dict.len (Dict.insert c.entries key value) ≤ c.max_entries
      → Inserted c key value
  insert_fits c key value v h = record {
    result = grown c key value;
    returns =
        unfold insert grown touch in
        rw
          (evict_fits c.max_entries (Dict.insert c.entries key value)
            (without key c.order ++ key ∷ []) h)
          refl;
    valid = record {
      distinct = unfold grown touch in insert-IsDistinct c.entries key value v.distinct;
      once = grown-Distinct c key value v;
      same = λ k. grown-same c key value k v;
      bounded = unfold grown touch in h;
    };
    limit = unfold grown touch in refl;
    outcome = kept (λ k. unfold grown touch in get-insert c.entries key k value);
  }

  -- In a full cache the front of the queue gives way.
  insert_full :
      (c : BoundedCache T) (key : String) (value : T) (oldest : String) (rest : List String)
      → IsValid c
      → c.order ≡ oldest ∷ rest
      → Dict.get c.entries key ≡ none
      → Dict.len c.entries ≡ c.max_entries
      → Inserted c key value
  insert_full c key value oldest rest v e missing full =
      let es = Dict.insert c.entries key value in
      let absent : mem key c.order ≡ false = ground (arith, v.same key) in
      let queue : without key c.order ++ key ∷ [] ≡ oldest ∷ (rest ++ key ∷ []) =
        ap (λ (o : List String). o ++ key ∷ []) (without_missing key c.order absent ∙ e) in
      let grew : Dict.len es ≡ suc c.max_entries = ground (arith, len-insert c.entries key value) in
      let ne : key == oldest ≡ false = ground (arith, eq_iff key oldest, eq_refl oldest) in
      let there : is_some (Dict.get c.entries oldest) ≡ true =
        ground (arith, v.same oldest, eq_refl oldest) in
      let distinct : Distinct (oldest ∷ (rest ++ key ∷ [])) =
        subst Distinct queue (unfold grown touch in grown-Distinct c key value v) in
      elim (Option-cases (Dict.get es oldest)) [
        | inl gone ↦ absurd (ground (arith, get-insert c.entries key oldest value))
        | inr (t, held) ↦ record {
          result = record c { entries = Dict.remove es oldest; order = rest ++ key ∷ [] };
          returns =
              unfold insert touch in
              rw (queue, evict_one c.max_entries es oldest (rest ++ key ∷ []) t grew held) refl;
          valid = record {
            distinct =
                remove-IsDistinct es oldest (insert-IsDistinct c.entries key value v.distinct);
            once = distinct.1;
            same = λ k.
                let before : mem k (oldest ∷ (rest ++ key ∷ [])) ≡ is_some (Dict.get es k) =
                  ap (mem k) (sym queue) ∙ (unfold grown touch in grown-same c key value k v) in
                ground (arith, eq_iff oldest k, get-remove es oldest k, distinct.0);
            bounded = omega (arith, len-remove-lt es oldest t held, grew);
          };
          limit = refl;
          outcome = dropped oldest rest e full missing λ k.
              get-remove es oldest k
              ∙ ap (λ (o : Option T). if oldest == k then none else o)
                  (get-insert c.entries key k value);
        }
      ]

  empty_queue : (c : BoundedCache T) → IsValid c → c.order ≡ [] → Dict.len c.entries ≡ 0
  empty_queue c v e = ap Dict.len (
      empty_of_none c.entries λ k. elim (Option-cases (Dict.get c.entries k)) [
        | inl none_there ↦ none_there
        | inr (t, there) ↦
            let listed : mem k c.order ≡ true = v.same k ∙ ap is_some there in
            let unlisted : mem k c.order ≡ false = ap (mem k) e in cc
      ])

  full_cache :
      (c : BoundedCache T) (key : String) (value : T) (o : List String)
      → IsValid c
      → 0 < c.max_entries
      → c.order ≡ o
      → c.max_entries < Dict.len (Dict.insert c.entries key value)
      → Inserted c key value
  full_cache c key value [] v pos e h =
      absurd (ground (arith, empty_queue c v e, len-insert c.entries key value))
  full_cache c key value (oldest ∷ rest) v pos e h = elim (Option-cases (Dict.get c.entries key)) [
    | inr (t, there) ↦ absurd (ground (arith, len-insert c.entries key value, v.bounded))
    | inl missing ↦
        insert_full c key value oldest rest v e missing
          (ground (arith, len-insert c.entries key value, v.bounded))
  ]

  -- In a valid cache with room for an entry, `insert` returns: its loop ends. The cache stays valid
  -- with the same limit. It keeps all other entries, unless it was full and the key new: then the
  -- key at the front of the queue gives way.
  pub insert_room :
      (c : BoundedCache T) (key : String) (value : T)
      → IsValid c
      → 0 < c.max_entries
      → Inserted c key value
  insert_room c key value v pos =
      elim (dec_le (Dict.len (Dict.insert c.entries key value)) c.max_entries) [
        | yes fits ↦ insert_fits c key value v fits
        | no more ↦ full_cache c key value c.order v pos refl (omega arith)
      ]

  -- A lookup answers with the entry and moves its key behind all others, and changes no entry.
  pub get_lem :
      (c : BoundedCache T) (key k : String)
      → IsValid c
      → ((get c key).1 ≡ Dict.get c.entries key)
        × (Dict.get (get c key).0.entries k ≡ Dict.get c.entries k)
        × ((get c key).0.order ≡ (
            if is_some (Dict.get c.entries key) then without key c.order ++ key ∷ [] else c.order))
  unfolding get touch
  get_lem c key k v = elim (Option-cases (Dict.get c.entries key)) [
    | inl e ↦ rw e (refl, refl, refl)
    | inr (t, e) ↦ rw e (refl, refl, refl)
  ]
