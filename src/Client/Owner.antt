-- ===== src/Client/Owner.antt =====
-- Which process a hook names as the owner of its session.
use claude_dbus.Prelude.{
  String, ℕ, zero, suc, ◌≡◌, ◌<◌, Option, none, some, ap, refl, ◌⊎◌, ◌↔◌, ◌==◌, Bool-cases,
  Option-cases, inl, inr, arith, ◌>>=◌, true, false,
}
use claude_dbus.Text.{trim, to_ascii_lowercase}
use claude_dbus.Client.{process_parent_pid, process_name, is_named, owning_loop, owning_process_pid}

module _ (stat_of : ℕ → Option String) where
  -- The parent of a process, a number of times over.
  abbrev pub ancestor : ℕ → ℕ → Option ℕ
  ancestor zero pid = some pid
  ancestor (suc n) pid = process_parent_pid stat_of pid >>= ancestor n

  -- The nearest ancestor, the process itself included, whose name contains the text.
  pub record IsOwner (agent : String) (from n pid : ℕ) : Type 0 where
    pub distance : ℕ
    pub near : distance < n
    pub above : ancestor distance from ≡ some pid
    pub named : is_named stat_of agent (process_name stat_of pid) ≡ true
    pub nearest :
        (k q : ℕ)
        → k < distance
        → ancestor k from ≡ some q
        → is_named stat_of agent (process_name stat_of q) ≡ false

  closer :
      (agent : String) (from parent distance : ℕ)
      → process_parent_pid stat_of from ≡ some parent
      → is_named stat_of agent (process_name stat_of from) ≡ false
      → ((k q : ℕ)
          → k < distance
          → ancestor k parent ≡ some q
          → is_named stat_of agent (process_name stat_of q) ≡ false)
      → (k q : ℕ) → k < suc distance
      → ancestor k from ≡ some q
      → is_named stat_of agent (process_name stat_of q) ≡ false
  closer agent from parent distance g h near zero q l a =
      let same : from ≡ q = ground arith in rw (← same) h
  closer agent from parent distance g h near (suc k) q l a = near k q (omega arith) (rw g at a)

  loop-IsOwner :
      (agent : String) (n from : ℕ) {pid : ℕ}
      → owning_loop stat_of agent n from ≡ some pid
      → IsOwner agent from n pid
  unfolding owning_loop
  loop-IsOwner agent zero from e = ground arith
  loop-IsOwner agent (suc n) from {pid} e =
      elim (Bool-cases (is_named stat_of agent (process_name stat_of from))) [
        | inl h ↦
            let same : from ≡ pid = ground arith in
            record {
              distance = 0;
              near = omega arith;
              above = ground arith;
              named = rw (← same) h;
              nearest = λ k q l a. absurd (omega arith);
            }
        | inr h ↦ elim (Option-cases (process_parent_pid stat_of from)) [
          | inl g ↦ ground arith
          | inr (parent, g) ↦
              let o = loop-IsOwner agent n parent (rw (h, g) at e) in
              record {
                distance = suc o.distance;
                near = omega (arith, o.near);
                above = rw g o.above;
                named = o.named;
                nearest = closer agent from parent o.distance g h o.nearest;
              }
        ]
      ]

  -- An owner is the process itself, or an owner seen from its parent.
  IsOwner-parent :
      (agent : String) (from n : ℕ) {pid : ℕ}
      → IsOwner agent from (suc n) pid
      → ((from ≡ pid) × (is_named stat_of agent (process_name stat_of from) ≡ true))
        ⊎ ((is_named stat_of agent (process_name stat_of from) ≡ false)
            × ((parent : ℕ) × (process_parent_pid stat_of from ≡ some parent)
                × IsOwner agent parent n pid))
  IsOwner-parent agent from n {pid} o = go o.distance o.near o.above o.named o.nearest
    where
      go :
          (d : ℕ)
          → d < suc n
          → ancestor d from ≡ some pid
          → is_named stat_of agent (process_name stat_of pid) ≡ true
          → ((k q : ℕ)
              → k < d
              → ancestor k from ≡ some q
              → is_named stat_of agent (process_name stat_of q) ≡ false)
          → ((from ≡ pid) × (is_named stat_of agent (process_name stat_of from) ≡ true))
            ⊎ ((is_named stat_of agent (process_name stat_of from) ≡ false)
                × ((parent : ℕ) × (process_parent_pid stat_of from ≡ some parent)
                    × IsOwner agent parent n pid))
      go zero near above named nearest =
          let same : from ≡ pid = cc above in inl (same, rw same named)
      go (suc d) near above named nearest = elim (Option-cases (process_parent_pid stat_of from)) [
        | inl g ↦ let bad : none ≡ some pid = rw g at above in absurd (cc bad)
        | inr (parent, g) ↦ inr (
          nearest 0 from (omega arith) refl,
          (
            parent,
            g,
            record {
              distance = d;
              near = omega (arith, near);
              above = rw g at above;
              named = named;
              nearest = λ k q l a. nearest (suc k) q (omega (arith, l)) (rw g a);
            },
          ),
        )
      ]

  IsOwner-loop :
      (agent : String) (n from : ℕ) {pid : ℕ}
      → IsOwner agent from n pid
      → owning_loop stat_of agent n from ≡ some pid
  unfolding owning_loop
  IsOwner-loop agent zero from o = absurd (omega (arith, o.near))
  IsOwner-loop agent (suc n) from o = elim (IsOwner-parent agent from n o) [
    | inl (same, named) ↦ rw named (ap (λ (q : ℕ). some q) same)
    | inr (unnamed, (parent, g, o')) ↦ rw (unnamed, g) (IsOwner-loop agent n parent o')
  ]

  -- The owner of a session: there is none for an agent without a name.
  pub record Owns (own : ℕ) (agent : String) (pid : ℕ) : Type 0 where
    pub has_name : (to_ascii_lowercase (trim agent) == "") ≡ false
    pub parent : ℕ
    pub child : process_parent_pid stat_of own ≡ some parent
    pub owner : IsOwner (to_ascii_lowercase (trim agent)) parent 32 pid

  -- A hook names a process as the owner of its session exactly when the agent has a name and the
  -- process is the nearest of the 32 ancestors of the hook whose name contains that of the agent,
  -- without regard to case or surrounding blanks.
  pub owning_process_pid_lem :
      (own : ℕ) (agent : String) (pid : ℕ)
      → owning_process_pid stat_of own agent ≡ some pid ↔ Owns own agent pid
  unfolding owning_process_pid
  owning_process_pid_lem own agent pid = (named, names)
    where
      name : String
      name = to_ascii_lowercase (trim agent)

      named : owning_process_pid stat_of own agent ≡ some pid → Owns own agent pid
      named e = elim (Bool-cases (name == "")) [
        | inl h ↦ let bad : none ≡ some pid = rw h at e in absurd (cc bad)
        | inr h ↦ elim (Option-cases (process_parent_pid stat_of own)) [
          | inl g ↦ let bad : none ≡ some pid = rw (h, g) at e in absurd (cc bad)
          | inr (parent, g) ↦ record {
            has_name = h;
            parent = parent;
            child = g;
            owner = loop-IsOwner name 32 parent (rw (h, g) at e);
          }
        ]
      ]

      names : Owns own agent pid → owning_process_pid stat_of own agent ≡ some pid
      names o = rw (o.has_name, o.child) (IsOwner-loop name 32 o.parent o.owner)
