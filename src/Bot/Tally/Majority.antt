-- ===== src/Bot/Tally/Majority.antt =====
-- The snapshot that `pick_actual_snapshot` takes for the server's last one.
use mathlib.Core.Logic.Or
use mathlib.Core.Logic.{∨₁_prop}
use mathlib.Core.List.{Mem, mem-cons, mem-cons_self, mem-cons_of_mem, not-mem-nil}
use mathlib.Core.Bool.{false≢true}
use native.Mathlib.Decide.{dec_lt}
use native.Mathlib.Bridge.{le_prop}
use rust_multichat_server.Base.{
  ℕ, ◌+◌, ◌*◌, ◌^◌, ◌≤◌, ◌<◌, ◌≡◌, ◌↔◌, refl, sym, ◌∙◌, List, [], ◌∷◌, if◌then◌else◌, length, arith,
  Bool, true, false, Bool-cases, inl, inr,
}
use rust_multichat_server.Bot.Tally.{
  FickleResult, array_eq, tally_snapshots, sum_u64, is_greater, max_from, max_snapshot,
  pick_actual_snapshot,
}
use rust_multichat_server.Bot.Tally.Entries.{
  array_eq_sound, entry_count, seen_by, entry_count-tally_snapshots, Unique-tally_snapshots,
  mem-entry_count, entry_count-mem,
}

-- The order of `max_by`: by the number of bots, then by the sum of the counts.
abbrev pub rank : List ℕ × ℕ → ℕ
rank e = e.1 * 2 ^ 64 + sum_u64 e.0

sum_u64-lt : (s : List ℕ) → sum_u64 s < 2 ^ 64
unfolding sum_u64
sum_u64-lt s = omega arith

is_greater_iff : (a b : List ℕ × ℕ) → (is_greater a b ≡ true) ↔ (rank b < rank a)
unfolding is_greater
is_greater_iff (a, n) (b, m) = ground (arith, sum_u64-lt a, sum_u64-lt b)

not_greater : (a b m : List ℕ × ℕ) → is_greater a b ≡ false → rank b ≤ rank m → rank a ≤ rank m
not_greater a b m h k = elim (dec_lt (rank b) (rank a)) [
  | yes more ↦ absurd (false≢true (sym h ∙ (is_greater_iff a b).1 more))
  | no less ↦ omega arith
]

abbrev AllBelow : List ℕ × ℕ → List (List ℕ × ℕ) → Type 0
AllBelow m [] = Unit
AllBelow m (e ∷ es) = (rank e ≤ rank m) × AllBelow m es

max_from-AllBelow :
    (best : List ℕ × ℕ) (es : List (List ℕ × ℕ)) → AllBelow (max_from best es) (best ∷ es)
unfolding max_from
max_from-AllBelow best [] = (omega arith, tt)
max_from-AllBelow best (e ∷ es) =
    widen (is_greater best e) refl (max_from-AllBelow (if is_greater best e then best else e) es)
  where
    widen :
        (b : Bool)
        → is_greater best e ≡ b
        → AllBelow (max_from (if b then best else e) es) ((if b then best else e) ∷ es)
        → AllBelow (max_from (if b then best else e) es) (best ∷ e ∷ es)
    widen true more (top, all) = (top, (omega (arith, (is_greater_iff best e).0 more, top), all))
    widen false less (top, all) = (not_greater best e _ less top, (top, all))

max_from-mem : (best : List ℕ × ℕ) (es : List (List ℕ × ℕ)) → Mem (max_from best es) (best ∷ es)
unfolding max_from
max_from-mem best [] = mem-cons_self
max_from-mem best (e ∷ es) =
    widen (is_greater best e) (max_from-mem (if is_greater best e then best else e) es)
  where
    widen :
        (b : Bool)
        → Mem (max_from (if b then best else e) es) ((if b then best else e) ∷ es)
        → Mem (max_from (if b then best else e) es) (best ∷ e ∷ es)
    widen true m =
        mem-cons.1 (Or.elim ∨₁_prop (mem-cons.0 m) Or.inl (λ m'. Or.inr (mem-cons_of_mem e m')))
    widen false m = mem-cons_of_mem best m

AllBelow-mem :
    (m e : List ℕ × ℕ) (es : List (List ℕ × ℕ)) → AllBelow m es → Mem e es → rank e ≤ rank m
AllBelow-mem m e [] a h = absurd (not-mem-nil h)
AllBelow-mem m e (x ∷ es) a h =
    Or.elim le_prop (mem-cons.0 h) (λ q. rw q a.0) (AllBelow-mem m e es a.1)

-- The iteration visits exactly the entries of the map.
abbrev pub Iterates : (List (List ℕ × ℕ) → List (List ℕ × ℕ)) → Type 0
Iterates order = (e : List ℕ × ℕ) (es : List (List ℕ × ℕ)) → Mem e (order es) ↔ Mem e es

-- The entry that `max_by` takes from a map that is not empty.
max_entry :
    (x : List ℕ × ℕ) (es : List (List ℕ × ℕ))
    → Mem x es
    → (e : List ℕ × ℕ) × Mem e es × (rank x ≤ rank e) × (max_snapshot es ≡ e.0)
unfolding max_snapshot
max_entry x [] m = absurd (not-mem-nil m)
max_entry x (e ∷ es) m = (
  max_from e es,
  max_from-mem e es,
  AllBelow-mem (max_from e es) x (e ∷ es) (max_from-AllBelow e es) m,
  refl,
)

-- In whatever order the map of snapshots is iterated: if more of the bots, fewer than 2 ^ 64, saw
-- the snapshot `m` last than any other, it is the one that is taken.
pub pick_majority :
    (order : List (List ℕ × ℕ) → List (List ℕ × ℕ)) (results : List FickleResult) (m : List ℕ)
    → Iterates order
    → length results < 2 ^ 64
    → 0 < seen_by m results
    → ((s : List ℕ) → array_eq s m ≡ false → seen_by s results < seen_by m results)
    → pick_actual_snapshot order results ≡ m
unfolding pick_actual_snapshot
pick_majority order results m iterates few some_saw most =
    let tally = tally_snapshots [] results in
    let counts : (j : List ℕ) → entry_count j tally ≡ seen_by j results =
      λ j. entry_count-tally_snapshots results j [] (omega arith) ∙ omega arith in
    let m_in : Mem (m, entry_count m tally) tally =
      mem-entry_count m tally (omega (arith, counts m)) in
    let (e, e_in, above, picked) = max_entry _ (order tally) ((iterates _ tally).1 m_in) in
    let e_count =
      entry_count-mem e tally (Unique-tally_snapshots results [] tt) ((iterates e tally).0 e_in) in
    elim (Bool-cases (array_eq e.0 m)) [
      | inl same ↦ picked ∙ array_eq_sound e.0 m same
      | inr other ↦ absurd (
          omega (
            arith,
            above,
            e_count,
            counts e.0,
            counts m,
            most e.0 other,
            sum_u64-lt e.0,
            sum_u64-lt m,
          ))
    ]
