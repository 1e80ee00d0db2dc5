-- ===== src/Store/Delivery.antt =====
-- What a node gets by polling: every queued command of its own, once, oldest first.
use cnp_v1_starter_kit.Prelude.{
  ℕ, ◌+◌, ◌≤◌, leb, if◌then◌else◌, Bool, Bool-cases, true, false, List, [], ◌∷◌, none, some, String,
  str_eq, eq_iff, select, count, All, arith, ◌≡◌, refl, sym, subst, ap, inl, inr, ◌⊎◌, length,
  length-select,
}
use cnp_v1_starter_kit.Store.Tables.{Command, Store}
use cnp_v1_starter_kit.Store.Commands.{
  is_queued, older, oldest, set_pending, get_pending_command, deliver,
}

-- No later row has the identifier of an earlier one: the primary key.
abbrev pub Absent : String → List Command → Type 0
Absent id [] = Unit {0}
Absent id (c ∷ cs) = (str_eq c.command_id id ≡ false) × Absent id cs

abbrev pub Distinct : List Command → Type 0
Distinct [] = Unit {0}
Distinct (c ∷ cs) = Absent c.command_id cs × Distinct cs

-- The place of a row in a table.
abbrev pub In : Command → List Command → Type 0
In c [] = ⊥
In c (d ∷ ds) = (c ≡ d) ⊎ In c ds

older_first : (d y : Command) → leb d.issued_ts_utc y.issued_ts_utc ≡ true → older d (some y) ≡ d
unfolding older
older_first d y e = rw e

older_later : (d y : Command) → leb d.issued_ts_utc y.issued_ts_utc ≡ false → older d (some y) ≡ y
unfolding older
older_later d y e = rw e

older-In : (d : Command) (cs : List Command) → In (older d (oldest cs)) (d ∷ cs)
unfolding oldest
older-In d [] = unfold older in inl refl
older-In d (x ∷ cs) =
    let y = older x (oldest cs) in
    elim (Bool-cases (leb d.issued_ts_utc y.issued_ts_utc)) [
      | inl first ↦ subst (λ z. In z (d ∷ x ∷ cs)) (sym (older_first d y first)) (inl refl)
      | inr later ↦
          subst (λ z. In z (d ∷ x ∷ cs)) (sym (older_later d y later)) (inr (older-In x cs))
    ]

-- A row that is issued no later than any of the rows.
abbrev pub IsLeast : ℕ → List Command → Type 0
IsLeast ts cs = All (λ c. ts ≤ c.issued_ts_utc) cs

IsLeast-le : (ts ts' : ℕ) (cs : List Command) → ts ≤ ts' → IsLeast ts' cs → IsLeast ts cs
IsLeast-le ts ts' [] h a = tt
IsLeast-le ts ts' (c ∷ cs) h a = (omega arith, IsLeast-le ts ts' cs h a.1)

older-IsLeast :
    (d : Command) (cs : List Command) → IsLeast (older d (oldest cs)).issued_ts_utc (d ∷ cs)
unfolding oldest
older-IsLeast d [] = unfold older in (omega arith, tt)
older-IsLeast d (x ∷ cs) =
    let y = older x (oldest cs) in
    let rest = older-IsLeast x cs in
    elim (Bool-cases (leb d.issued_ts_utc y.issued_ts_utc)) [
      | inl first ↦
          subst (λ z. IsLeast z.issued_ts_utc (d ∷ x ∷ cs)) (sym (older_first d y first))
            (omega arith, IsLeast-le d.issued_ts_utc y.issued_ts_utc (x ∷ cs) (ground arith) rest)
      | inr later ↦
          subst (λ z. IsLeast z.issued_ts_utc (d ∷ x ∷ cs)) (sym (older_later d y later))
            (ground arith, rest)
    ]

In-select :
    (p : Command → Bool) (c : Command) (cs : List Command)
    → In c (select p cs)
    → In c cs × (p c ≡ true)
In-select p c [] i = absurd i
In-select p c (d ∷ cs) i = elim (Bool-cases (p d)) [
  | inl pass ↦ elim (subst (λ b. In c (if b then d ∷ select p cs else select p cs)) pass i) [
    | inl e ↦ (inl e, rw e pass)
    | inr j ↦ let (there, ok) = In-select p c cs j in (inr there, ok)
  ]
  | inr fail ↦
      let (there, ok) =
        In-select p c cs (subst (λ b. In c (if b then d ∷ select p cs else select p cs)) fail i) in
      (inr there, ok)
]

Absent-In :
    (id : String) (c : Command) (cs : List Command)
    → Absent id cs
    → In c cs
    → str_eq c.command_id id ≡ false
Absent-In id c [] a i = absurd i
Absent-In id c (d ∷ cs) a (inl e) = rw e a.0
Absent-In id c (d ∷ cs) a (inr i) = Absent-In id c cs a.1 i

set_pending-Absent :
    (id other : String) (cs : List Command) → Absent other cs → Absent other (set_pending id cs)
unfolding set_pending
set_pending-Absent id other [] a = tt
set_pending-Absent id other (c ∷ cs) a = ground (arith, set_pending-Absent id other cs a.1)

set_pending-Distinct :
    (id : String) (cs : List Command) → Distinct cs → Distinct (set_pending id cs)
unfolding set_pending
set_pending-Distinct id [] d = tt
set_pending-Distinct id (c ∷ cs) d =
    ground (arith, set_pending-Absent id c.command_id cs d.0, set_pending-Distinct id cs d.1)

count-set_pending-Absent :
    (node_id id : String) (cs : List Command)
    → Absent id cs
    → count (is_queued node_id) (set_pending id cs) ≡ count (is_queued node_id) cs
unfolding set_pending
count-set_pending-Absent node_id id [] a = refl
count-set_pending-Absent node_id id (c ∷ cs) a =
    ground (arith, count-set_pending-Absent node_id id cs a.1)

head_pending :
    (node_id : String) (d : Command) (cs : List Command)
    → Absent d.command_id cs
    → is_queued node_id d ≡ true
    → count (is_queued node_id) (set_pending d.command_id (d ∷ cs)) + 1
      ≡ count (is_queued node_id) (d ∷ cs)
unfolding set_pending is_queued
head_pending node_id d cs a q =
    rw ((eq_iff d.command_id d.command_id).1 refl)
      (ground (arith, count-set_pending-Absent node_id d.command_id cs a))

-- Marking a queued row leaves one queued row less.
count-set_pending :
    (node_id : String) (c : Command) (cs : List Command)
    → Distinct cs
    → In c cs
    → is_queued node_id c ≡ true
    → count (is_queued node_id) (set_pending c.command_id cs) + 1 ≡ count (is_queued node_id) cs
unfolding set_pending
count-set_pending node_id c [] dis i q = absurd i
count-set_pending node_id c (d ∷ cs) dis (inl e) q =
    subst
      (λ z.
        is_queued node_id z ≡ true
        → count (is_queued node_id) (set_pending z.command_id (d ∷ cs)) + 1
          ≡ count (is_queued node_id) (d ∷ cs))
      (sym e) (λ q'. head_pending node_id d cs dis.0 q') q
count-set_pending node_id c (d ∷ cs) dis (inr i) q = ground (
  arith,
  Absent-In d.command_id c cs dis.0 i,
  eq_iff c.command_id d.command_id,
  eq_iff d.command_id c.command_id,
  count-set_pending node_id c cs dis.1 i q,
)

-- How many commands wait for a node.
abbrev pub waiting : String → Store → ℕ
waiting node_id s = count (is_queued node_id) s.commands

-- A poll, on a table whose identifiers are distinct: either nothing waits, and the store stays as it
-- is; or the node gets a command of its own that is queued and that no other queued command of the
-- node is older than, which is pending afterwards, so that one command less waits.
pub get_pending_command_lem :
    (node_id : String) (s : Store)
    → Distinct s.commands
    → ((waiting node_id s ≡ 0) × (get_pending_command node_id s ≡ (s, none)))
      ⊎ ((c : Command) × (get_pending_command node_id s
            ≡ (record s { commands = set_pending c.command_id s.commands }, some c))
          × In c s.commands
          × (is_queued node_id c ≡ true)
          × IsLeast c.issued_ts_utc (select (is_queued node_id) s.commands)
          × (waiting node_id (get_pending_command node_id s).0 + 1 ≡ waiting node_id s)
          × Distinct (get_pending_command node_id s).0.commands)
unfolding get_pending_command deliver oldest
get_pending_command_lem node_id s dis = go (select (is_queued node_id) s.commands) refl
  where
    go :
        (queue : List Command)
        → select (is_queued node_id) s.commands ≡ queue
        → ((waiting node_id s ≡ 0) × (get_pending_command node_id s ≡ (s, none)))
          ⊎ ((c : Command) × (get_pending_command node_id s
                ≡ (record s { commands = set_pending c.command_id s.commands }, some c))
              × In c s.commands
              × (is_queued node_id c ≡ true)
              × IsLeast c.issued_ts_utc (select (is_queued node_id) s.commands)
              × (waiting node_id (get_pending_command node_id s).0 + 1 ≡ waiting node_id s)
              × Distinct (get_pending_command node_id s).0.commands)
    go [] e =
        inl (omega (arith, length-select (is_queued node_id) s.commands, ap (length {0}) e), rw e)
    go (d ∷ ds) e =
        let c = older d (oldest ds) in
        let found : In c (select (is_queued node_id) s.commands) = rw e (older-In d ds) in
        let (there, queued) = In-select (is_queued node_id) c s.commands found in
        inr (
          c,
          rw e,
          there,
          queued,
          rw e (older-IsLeast d ds),
          rw e (count-set_pending node_id c s.commands dis there queued),
          rw e (set_pending-Distinct c.command_id s.commands dis),
        )
