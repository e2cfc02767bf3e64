-- ===== src/Destinations/Copied.antt =====
-- What the container finds under a name.
use mathlib.Core.List
use mathlib.Core.Path.{subst}
use aimclaw.Base.{
  Option-cases, ◌>>=◌, String, str_eq, str_eq_iff, ◌≡◌, refl, sym, ap, ◌∙◌, true, false, Option,
  none, some, List, [], ◌∷◌, ◌++◌, any, find, arith, Bool-cases, inl, inr,
}
use aimclaw.AgentRouting.{AgentDestination, TargetType, agent, channel, is_named}
use aimclaw.Destinations.{
  Chat, AgentGroup, DestinationRow, DestinationEntry, get_destinations, is_owned, has_name, added,
  insert_all, replace_destinations, row_for, resolved_row, resolved_rows, write_destinations,
  entry_of, find_by_name, chat_row, agent_row,
}

-- PRIMARY KEY (name)
abbrev pub IsKeyed : List DestinationRow → Type 0
IsKeyed [] = Unit
IsKeyed (r ∷ rs) = (any (has_name r.name) rs ≡ false) × IsKeyed rs

-- PRIMARY KEY (agent_group_id, local_name)
abbrev pub HasKeys : List AgentDestination → Type 0
HasKeys [] = Unit
HasKeys (d ∷ ds) = (any (is_named d.agent_group_id d.local_name) ds ≡ false) × HasKeys ds

names_apart :
    (r t : DestinationRow) (table rs : List DestinationRow)
    → any (has_name t.name) (table ++ r ∷ rs) ≡ false
    → str_eq t.name r.name ≡ false
names_apart r t [] rs e = ground (arith, str_eq_iff r.name t.name, str_eq_iff t.name r.name)
names_apart r t (u ∷ table) rs e = names_apart r t table rs (ground arith)

IsKeyed-free :
    (r : DestinationRow) (table rs : List DestinationRow)
    → IsKeyed (table ++ r ∷ rs)
    → any (has_name r.name) table ≡ false
IsKeyed-free r [] rs k = refl
IsKeyed-free r (t ∷ table) rs (e, k) =
    ground (arith, names_apart r t table rs e, IsKeyed-free r table rs k)

-- Rows with distinct names are all inserted.
insert_all-IsKeyed :
    (rs table : List DestinationRow)
    → IsKeyed (table ++ rs)
    → insert_all rs table ≡ some (table ++ rs)
unfolding insert_all
insert_all-IsKeyed [] table k = ap some (sym (List.append-nil table))
insert_all-IsKeyed (r ∷ rs) table k =
    let joined : (table ++ r ∷ []) ++ rs ≡ table ++ (r ∷ rs) =
      List.append_assoc table (r ∷ []) rs in
    rw (IsKeyed-free r table rs k)
      (insert_all-IsKeyed rs (table ++ r ∷ []) (subst IsKeyed (sym joined) k) ∙ ap some joined)

any-find :
    (name : String) (rs : List DestinationRow)
    → any (has_name name) rs ≡ false
    → find (has_name name) rs ≡ none
any-find name [] e = refl
any-find name (r ∷ rs) e = ground (arith, any-find name rs)

-- A row that is there is called `m`.
abbrev IsCalled : String → Option DestinationRow → Type 0
IsCalled m row = (r : DestinationRow) → row ≡ some r → r.name ≡ m

module _ (m name : String) (rs : List DestinationRow) where
  any-added :
      (row : Option DestinationRow)
      → IsCalled m row
      → str_eq m name ≡ false
      → any (has_name name) rs ≡ false
      → any (has_name name) (added row rs) ≡ false
  any-added none c n e = e
  any-added (some r) c n e = rw (c r refl, n, e) refl

  find-added-miss :
      (row : Option DestinationRow)
      → IsCalled m row
      → str_eq m name ≡ false
      → find (has_name name) (added row rs) ≡ find (has_name name) rs
  find-added-miss none c n = refl
  find-added-miss (some r) c n = rw (c r refl, n) refl

  find-added-hit :
      (row : Option DestinationRow)
      → IsCalled m row
      → str_eq m name ≡ true
      → any (has_name name) rs ≡ false
      → find (has_name name) (added row rs) ≡ row
  find-added-hit none c h e = any-find name rs e
  find-added-hit (some r) c h e = rw (c r refl, h) refl

added-IsKeyed :
    (m : String) (rs : List DestinationRow) (row : Option DestinationRow)
    → IsCalled m row
    → any (has_name m) rs ≡ false
    → IsKeyed rs
    → IsKeyed (added row rs)
added-IsKeyed m rs none c e k = k
added-IsKeyed m rs (some r) c e k = (rw (c r refl) e, k)

abbrev name_of : Option DestinationRow → String
name_of none = ""
name_of (some r) = r.name

module _ (chats : List Chat) (groups : List AgentGroup) where
  chat_row-name : (d : AgentDestination) (c : Option Chat) → IsCalled d.local_name (chat_row d c)
  chat_row-name d none r e = cc
  chat_row-name d (some c) r e = ap name_of (sym e)

  agent_row-name :
      (d : AgentDestination) (g : Option AgentGroup) → IsCalled d.local_name (agent_row d g)
  agent_row-name d none r e = cc
  agent_row-name d (some g) r e = ap name_of (sym e)

  row_for-name :
      (d : AgentDestination) (t : TargetType) → IsCalled d.local_name (row_for chats groups d t)
  row_for-name d channel = chat_row-name d (find (λ c. str_eq c.id d.target_id) chats)
  row_for-name d agent = agent_row-name d (find (λ g. str_eq g.id d.target_id) groups)

  resolved_row-name : (d : AgentDestination) → IsCalled d.local_name (resolved_row chats groups d)
  unfolding resolved_row
  resolved_row-name d = row_for-name d d.target_type

  module _ (a : String) where
    abbrev pub projected : List AgentDestination → List DestinationRow
    projected ds = resolved_rows chats groups (get_destinations a ds)

    projected-free :
        (name : String) (ds : List AgentDestination)
        → any (is_named a name) ds ≡ false
        → any (has_name name) (projected ds) ≡ false
    unfolding get_destinations
    projected-free name [] e = refl
    projected-free name (d ∷ ds) e = elim (Bool-cases (is_owned a d)) [
      | inl mine ↦ rw mine (
          any-added d.local_name name (projected ds) (resolved_row chats groups d)
            (resolved_row-name d) (ground arith) (projected-free name ds (ground arith)))
      | inr other ↦ rw other (projected-free name ds (ground arith))
    ]

    projected-IsKeyed : (ds : List AgentDestination) → HasKeys ds → IsKeyed (projected ds)
    unfolding get_destinations
    projected-IsKeyed [] k = tt
    projected-IsKeyed (d ∷ ds) (e, k) = elim (Bool-cases (is_owned a d)) [
      | inl mine ↦
          let same : d.agent_group_id ≡ a = ground (arith, str_eq_iff d.agent_group_id a) in
          let free : any (is_named a d.local_name) ds ≡ false =
            ap (λ x. any (is_named x d.local_name) ds) (sym same) ∙ e in
          rw mine (
            added-IsKeyed d.local_name (projected ds) (resolved_row chats groups d)
              (resolved_row-name d) (projected-free d.local_name ds free) (projected-IsKeyed ds k))
      | inr other ↦ rw other (projected-IsKeyed ds k)
    ]

    -- The row of a name, from the central tables
    abbrev pub row_of : String → List AgentDestination → Option DestinationRow
    row_of name ds = find (is_named a name) ds >>= resolved_row chats groups

    find-projected :
        (name : String) (ds : List AgentDestination)
        → HasKeys ds
        → find (has_name name) (projected ds) ≡ row_of name ds
    unfolding get_destinations
    find-projected name [] k = refl
    find-projected name (d ∷ ds) (e, k) = elim (Bool-cases (is_owned a d)) [
      | inl mine ↦ elim (Bool-cases (str_eq d.local_name name)) [
        | inl h ↦
            let same : d.agent_group_id ≡ a = ground (arith, str_eq_iff d.agent_group_id a) in
            let called : d.local_name ≡ name = ground (arith, str_eq_iff d.local_name name) in
            let free : any (is_named a name) ds ≡ false =
              ap (λ x. any (is_named x name) ds) (sym same)
              ∙ (ap (λ x. any (is_named d.agent_group_id x) ds) (sym called) ∙ e) in
            rw (mine, h)
              (find-added-hit d.local_name name (projected ds) (resolved_row chats groups d)
                (resolved_row-name d) h (projected-free name ds free))
        | inr n ↦
            rw (mine, n)
              (find-added-miss d.local_name name (projected ds) (resolved_row chats groups d)
                  (resolved_row-name d) n
                ∙ find-projected name ds k)
      ]
      | inr other ↦ rw other (find-projected name ds k)
    ]

    -- What the central tables have under a destination, written out: nothing where its chat or agent group is gone
    abbrev chat_entry : AgentDestination → Option Chat → Option DestinationEntry
    chat_entry d none = none
    chat_entry d (some c) = some (record {
      name = d.local_name;
      display_name = elim c.name [ none ↦ d.local_name | some n ↦ n ];
      type = channel;
      channel_type = some c.channel_type;
      platform_id = some c.platform_id;
      agent_group_id = none;
    })

    abbrev agent_entry : AgentDestination → Option AgentGroup → Option DestinationEntry
    agent_entry d none = none
    agent_entry d (some g) = some (record {
      name = d.local_name;
      display_name = g.name;
      type = agent;
      channel_type = none;
      platform_id = none;
      agent_group_id = some g.id;
    })

    abbrev expected : AgentDestination → TargetType → Option DestinationEntry
    expected d channel = chat_entry d (find (λ c. str_eq c.id d.target_id) chats)
    expected d agent = agent_entry d (find (λ g. str_eq g.id d.target_id) groups)

    abbrev pub entry_under : Option AgentDestination → Option DestinationEntry
    entry_under none = none
    entry_under (some d) = expected d d.target_type

    chat_entry-eq :
        (d : AgentDestination) (c : Option Chat) → entry_of (chat_row d c) ≡ chat_entry d c
    chat_entry-eq d none = refl
    chat_entry-eq d (some c) = elim (Option-cases c.name) [
      | inl e ↦ rw e refl
      | inr (n, e) ↦ rw e refl
    ]

    agent_entry-eq :
        (d : AgentDestination) (g : Option AgentGroup) → entry_of (agent_row d g) ≡ agent_entry d g
    agent_entry-eq d none = refl
    agent_entry-eq d (some g) = refl

    expected-eq :
        (d : AgentDestination) (t : TargetType) → entry_of (row_for chats groups d t) ≡ expected d t
    expected-eq d channel = chat_entry-eq d (find (λ c. str_eq c.id d.target_id) chats)
    expected-eq d agent = agent_entry-eq d (find (λ g. str_eq g.id d.target_id) groups)

    entry_under-eq :
        (found : Option AgentDestination)
        → entry_of (found >>= resolved_row chats groups) ≡ entry_under found
    unfolding resolved_row
    entry_under-eq none = refl
    entry_under-eq (some d) = expected-eq d d.target_type

    pub write_destinations-rows :
        (ds : List AgentDestination) (table : List DestinationRow)
        → HasKeys ds
        → (rows : List DestinationRow) × ((write_destinations chats groups a ds table ≡ some rows)
            × ((name : String) → find_by_name name rows ≡ entry_of (row_of name ds)))
    unfolding write_destinations replace_destinations find_by_name
    write_destinations-rows ds table k = (
      projected ds,
      (
        insert_all-IsKeyed (projected ds) [] (projected-IsKeyed ds k),
        λ name. ap entry_of (find-projected name ds k),
      ),
    )

    -- The copy that the host writes into a session is complete: whatever the table held, the write succeeds, and
    -- the container then finds under each name what the central tables have for it: the chat's address and name, or
    -- the agent group and its name, and nothing where there is no destination of that name or its chat or agent
    -- group is gone. The rows of agent_destinations have distinct keys.
    pub write_destinations-find :
        (ds : List AgentDestination) (table : List DestinationRow)
        → HasKeys ds
        → (rows : List DestinationRow) × ((write_destinations chats groups a ds table ≡ some rows)
            × ((name : String) → find_by_name name rows ≡ entry_under (find (is_named a name) ds)))
    write_destinations-find ds table k =
        let (rows, (w, all)) = write_destinations-rows ds table k in
        (rows, (w, λ name. all name ∙ entry_under-eq (find (is_named a name) ds)))
