-- ===== src/Bridge/Shown/Reached.antt =====
-- In every state that the service can reach, what clients see pending can be answered.
use claude_dbus.Prelude.{
  String, ℕ, ◌≡◌, ◌⊎◌, refl, List, [], ◌∷◌, ◌++◌, map, Option, none, some, false, ◌==◌, Bool-cases,
  Option-cases, inl, inr,
}
use claude_dbus.Dict
use claude_dbus.Text.{lines}
use claude_dbus.Json.{Value}
use claude_dbus.Bus.Store.{Store}
use claude_dbus.Codex.Title.{
  Seen, is_seen, titled, apply_index_line, apply_index, title_watcher,
  parse_codex_session_index_line,
}
use claude_dbus.Bridge.{Bridge}
use claude_dbus.Bridge.Wait.{Waiting}
use claude_dbus.Bridge.Handler.{resume}
use claude_dbus.Bridge.System.{
  Held, System, start, Step, arrives, answers, resumes, polls, drains, compacts, retitles,
  Reachable, started, stepped,
}
use claude_dbus.Bridge.Carried.{tick-Keeps, compact-Keeps}
use claude_dbus.Bridge.Carried.Handled.{handle-Keeps}
use claude_dbus.Bridge.Shown.Keeps.{HasHome, IsShown}
use claude_dbus.Bridge.Shown.Parts.{existing-IsShown, drain-IsShown, IsShown-IsCarried}
use claude_dbus.Bridge.Shown.Requests.{answer-IsShown}
use claude_dbus.Bridge.Shown.Ends.{IsShown-IsAsked, finish-IsShown}

abbrev pub homes : List Held → List Waiting
homes = map λ x. x.wait

-- The watcher of titles.
module _ (waits : List Waiting) (br : Bridge) where
  line-IsShown :
      (store : Store) (line : Option (String × String))
      → IsShown waits (record br { store = store })
      → IsShown waits (record br { store = apply_index_line store line })
  unfolding apply_index_line
  line-IsShown store none v = v
  line-IsShown store (some (id, title)) v = elim (Bool-cases (title == "")) [
    | inl e ↦ rw e v
    | inr e ↦
        rw e (existing-IsShown waits (record br { store = store }) id (titled title) (λ s. refl) v)
  ]

  index-IsShown :
      (from_str : String → Option Value) (store : Store) (ls : List String)
      → IsShown waits (record br { store = store })
      → IsShown waits (record br { store = apply_index from_str store ls })
  unfolding apply_index
  index-IsShown from_str store [] v = v
  index-IsShown from_str store (line ∷ ls) v =
      let entry = parse_codex_session_index_line from_str line in
      index-IsShown from_str (apply_index_line store entry) ls (line-IsShown store entry v)

  title-IsShown :
      (from_str : String → Option Value) (last_seen seen : Option Seen) (contents : Option String)
      → IsShown waits br
      → IsShown waits
          (record br { store = (title_watcher from_str last_seen br.store seen contents).1 })
  unfolding title_watcher
  title-IsShown from_str last_seen none contents v = v
  title-IsShown from_str last_seen (some seen) contents v =
      elim (Bool-cases (is_seen last_seen seen)) [
        | inl e ↦ rw e v
        | inr e ↦ elim (Option-cases contents) [
          | inl f ↦ rw (e, f) v
          | inr (text, f) ↦ rw (e, f) (index-IsShown from_str br.store (lines text) v)
        ]
      ]

-- Handlers that wait, but one.
home_there :
    (earlier later : List Held) (x : Held)
    → HasHome (homes (earlier ++ (x ∷ later))) x.wait.path x.wait.number
home_there [] later x = inl (refl, refl)
home_there (y ∷ earlier) later x = inr (home_there earlier later x)

home_others :
    (earlier later : List Held) (x : Held) (p : String) (n : ℕ)
    → HasHome (homes (earlier ++ (x ∷ later))) p n
    → ((x.wait.path ≡ p) × (x.wait.number ≡ n)) ⊎ HasHome (homes (earlier ++ later)) p n
home_others [] later x p n h = h
home_others (y ∷ earlier) later x p n (inl e) = inr (inl e)
home_others (y ∷ earlier) later x p n (inr h) = elim (home_others earlier later x p n h) [
  | inl e ↦ inl e
  | inr h' ↦ inr (inr h')
]

home_before :
    (earlier later : List Held) (x : Held) (p : String) (n : ℕ)
    → HasHome (homes (earlier ++ later)) p n
    → HasHome (homes (earlier ++ (x ∷ later))) p n
home_before [] later x p n h = inr h
home_before (y ∷ earlier) later x p n (inl e) = inl e
home_before (y ∷ earlier) later x p n (inr h) = inr (home_before earlier later x p n h)

IsAllShown : System → Type 0
IsAllShown s = IsShown (homes s.held) s.bridge

Step-IsAllShown : {s s' : System} → Step s s' → IsAllShown s → IsAllShown s'
unfolding IsAllShown resume
Step-IsAllShown {s} (arrives w raw clock' (run, none) t e) v =
    let hs = homes s.held in
    rw e at (handle-Keeps _ _ (IsShown-IsCarried hs) (IsShown-IsAsked hs) w s.bridge raw v)
Step-IsAllShown {s} (arrives w raw clock' (run, some wait) t e) v =
    let hs = homes s.held in
    rw e at (handle-Keeps _ _ (IsShown-IsCarried hs) (IsShown-IsAsked hs) w s.bridge raw v)
Step-IsAllShown {s} (answers path id answer) v =
    answer-IsShown (homes s.held) s.bridge path id answer v
Step-IsAllShown {s} (resumes w earlier later x e) v =
    let whole = homes (earlier ++ (x ∷ later)) in
    let v' : IsShown whole s.bridge = rw e at v in
    finish-IsShown whole s.bridge x.wait v' (home_there earlier later x) (homes (earlier ++ later))
      (home_others earlier later x) (home_before earlier later x)
Step-IsAllShown {s} (polls w clock' run t e) v =
    rw e at (tick-Keeps _ (IsShown-IsCarried (homes s.held)) w s.bridge v)
Step-IsAllShown {s} (drains w id) v = drain-IsShown (homes s.held) w s.bridge id false v
Step-IsAllShown {s} (compacts w offset len read) v =
    compact-Keeps _ (IsShown-IsCarried (homes s.held)) w s.bridge offset len read v
Step-IsAllShown {s} (retitles w last_seen seen contents) v =
    title-IsShown (homes s.held) s.bridge w.from_str last_seen seen contents v

start-IsShown : (ttl : ℕ) → IsShown [] (start ttl)
unfolding start Dict.get
start-IsShown ttl = record {
  numbered = λ id n h. absurd (cc h);
  given = λ p n h. elim h [ ];
  one_home = λ p q n h g. elim h [ ];
  distinct = λ p s h. absurd (cc h);
  open' = λ p s id h m. absurd (cc h);
}

-- In every state that the service can reach, each request that an object on the bus shows as pending
-- is registered at the broker, its channel waits, and a handler waits for it under the path of the
-- object; no two requests shown have the same id.
pub Reachable-IsShown : {ttl : ℕ} (s : System) → Reachable ttl s → IsShown (homes s.held) s.bridge
unfolding IsAllShown
Reachable-IsShown {ttl} _ (started clock) = start-IsShown ttl
Reachable-IsShown s' (stepped {s} r st) = Step-IsAllShown st (Reachable-IsShown s r)
