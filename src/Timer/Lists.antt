-- ===== src/Timer/Lists.antt =====
-- The active timers of timer.c as a list with distinct addresses.
use iperf_swift.Prelude.{
  ℕ, Bool, true, false, ◌||◌, ◌≡◌, refl, ap, subst, inl, inr, Bool-cases, some, List, [], ◌∷◌,
  if◌then◌else◌, ◌==◌, arith, if_both,
}
use iperf_swift.Timer.{Timer, is_before, list_add, list_remove, find, next_of}

module _ (P : Timer → Type 0) where
  abbrev pub All : List Timer → Type 0
  All [] = Unit {0}
  All (t ∷ rest) = P t × All rest

  pub All-list_add : (x : Timer) (l : List Timer) → P x → All l → All (list_add x l)
  unfolding list_add
  All-list_add x [] p all = (p, tt)
  All-list_add x (t ∷ rest) p (q, all) =
      if_both All (is_before x t) (x ∷ t ∷ rest) _ (λ before. (p, (q, all)))
        (λ after. (q, All-list_add x rest p all))

  pub All-list_remove : (address : ℕ) (l : List Timer) → All l → All (list_remove address l)
  unfolding list_remove
  All-list_remove address [] all = tt
  All-list_remove address (t ∷ rest) (q, all) =
      if_both All (t.address == address) rest _ (λ here. all)
        (λ later. (q, All-list_remove address rest all))

  pub All-find : (address : ℕ) (l : List Timer) (t : Timer) → find address l ≡ some t → All l → P t
  unfolding find
  All-find address [] t found all = absurd (ground arith)
  All-find address (x ∷ rest) t found (p, all) = elim (Bool-cases (x.address == address)) [
    | inl here ↦ subst P (ground arith) p
    | inr later ↦ All-find address rest t (ground arith) all
  ]

abbrev pub IsOther : ℕ → Timer → Type 0
IsOther address t = (t.address == address) ≡ false

-- No two timers have the same address.
abbrev pub IsDistinct : List Timer → Type 0
IsDistinct [] = Unit {0}
IsDistinct (t ∷ rest) = All (IsOther t.address) rest × IsDistinct rest

pub find-address :
    (address : ℕ) (l : List Timer) (t : Timer) → find address l ≡ some t → t.address ≡ address
unfolding find
find-address address [] t found = absurd (ground arith)
find-address address (x ∷ rest) t found = elim (Bool-cases (x.address == address)) [
  | inl here ↦ ground arith
  | inr later ↦ find-address address rest t (ground arith)
]

pub list_add-IsDistinct :
    (x : Timer) (l : List Timer)
    → All (IsOther x.address) l
    → IsDistinct l
    → IsDistinct (list_add x l)
unfolding list_add
list_add-IsDistinct x [] other distinct = (tt, tt)
list_add-IsDistinct x (t ∷ rest) (other, others) (first, distinct) =
    if_both IsDistinct (is_before x t) (x ∷ t ∷ rest) _
      (λ before. ((other, others), (first, distinct)))
      (λ after. (
        All-list_add (IsOther t.address) x rest (ground arith) first,
        list_add-IsDistinct x rest others distinct,
      ))

pub list_remove-IsDistinct :
    (address : ℕ) (l : List Timer) → IsDistinct l → IsDistinct (list_remove address l)
unfolding list_remove
list_remove-IsDistinct address [] distinct = tt
list_remove-IsDistinct address (t ∷ rest) (first, distinct) =
    if_both IsDistinct (t.address == address) rest _ (λ here. distinct)
      (λ later. (
        All-list_remove (IsOther t.address) address rest first,
        list_remove-IsDistinct address rest distinct,
      ))

pub list_remove-others :
    (address : ℕ) (l : List Timer) → IsDistinct l → All (IsOther address) (list_remove address l)
unfolding list_remove
list_remove-others address [] distinct = tt
list_remove-others address (t ∷ rest) (first, distinct) =
    if_both (All (IsOther address)) (t.address == address) rest _
      (λ here. subst (λ a. All (IsOther a) rest) (ground arith) first)
      (λ later. (later, list_remove-others address rest distinct))

-- whether a timer is active
abbrev pub has : ℕ → List Timer → Bool
has address [] = false
has address (t ∷ rest) = (t.address == address) || has address rest

pub has-found :
    (address : ℕ) (l : List Timer) → has address l ≡ true → (t : Timer) × (find address l ≡ some t)
unfolding find
has-found address [] h = absurd (ground arith)
has-found address (t ∷ rest) h = elim (Bool-cases (t.address == address)) [
  | inl here ↦ (t, rw here refl)
  | inr later ↦ let (u, found) = has-found address rest (ground arith) in (u, rw later found)
]

pub has-list_add :
    (address : ℕ) (x : Timer) (l : List Timer)
    → ((x.address == address) || has address l) ≡ true
    → has address (list_add x l) ≡ true
unfolding list_add
has-list_add address x [] h = h
has-list_add address x (t ∷ rest) h =
    if_both (λ l. has address l ≡ true) (is_before x t) (x ∷ t ∷ rest) _ (λ before. h)
      (λ after. elim (Bool-cases (t.address == address)) [
        | inl here ↦ rw here refl
        | inr later ↦ rw later (has-list_add address x rest (ground arith))
      ])

pub has-list_remove :
    (address other : ℕ) (l : List Timer)
    → (other == address) ≡ false
    → has address l ≡ true
    → has address (list_remove other l) ≡ true
unfolding list_remove
has-list_remove address other [] differ h = h
has-list_remove address other (t ∷ rest) differ h =
    if_both (λ l. has address l ≡ true) (t.address == other) rest _ (λ here. ground arith)
      (λ later. elim (Bool-cases (t.address == address)) [
        | inl here ↦ rw here refl
        | inr far ↦ rw far (has-list_remove address other rest differ (ground arith))
      ])

-- Another timer moves.
pub find-list_add :
    (address : ℕ) (x : Timer) (l : List Timer)
    → IsOther address x
    → find address (list_add x l) ≡ find address l
unfolding find list_add
find-list_add address x [] other = ground arith
find-list_add address x (t ∷ rest) other =
    if_both (λ l. find address l ≡ find address (t ∷ rest)) (is_before x t) (x ∷ t ∷ rest) _
      (λ before. rw other refl)
      (λ after.
        ap (λ later. if t.address == address then some t else later)
          (find-list_add address x rest other))

pub find-list_remove :
    (address other : ℕ) (l : List Timer)
    → (other == address) ≡ false
    → find address (list_remove other l) ≡ find address l
unfolding find list_remove
find-list_remove address other [] differ = refl
find-list_remove address other (t ∷ rest) differ =
    if_both (λ l. find address l ≡ find address (t ∷ rest)) (t.address == other) rest _
      (λ here. ground arith)
      (λ far.
        ap (λ later. if t.address == address then some t else later)
          (find-list_remove address other rest differ))

pub next_of-active :
    (address next : ℕ) (l : List Timer)
    → IsDistinct l
    → next_of address l ≡ some next
    → ((address == next) ≡ false) × (has next l ≡ true)
unfolding next_of
next_of-active address next [] distinct h = absurd (ground arith)
next_of-active address next (t ∷ []) distinct h = absurd (ground arith)
next_of-active address next (t ∷ t2 ∷ rest) (first, distinct) h =
    elim (Bool-cases (t.address == address)) [
      | inl here ↦ (ground arith, ground arith)
      | inr far ↦
          let (differ, active) = next_of-active address next (t2 ∷ rest) distinct (ground arith) in
          (differ, ground arith)
    ]
