-- ===== src/Book/Refresh/Sums.antt =====
-- The loop of a refresh against plain sums over the children that are new orders.
use account_services.Base.{
  ℕ, ◌+◌, ◌≤◌, ◌<◌, ◌≡◌, refl, ap, ◌∙◌, Bool, true, none, some, List, [], ◌∷◌, map, u64_mod,
  u64_max, min, saturating_add, saturating_add_lem, saturating_add-lt, All, length, ◌&&◌, ◌⊎◌,
  if◌then◌else◌, ◌++◌, subst, false, Bool-cases, Option-cases, inl, inr, arith,
}
use account_services.Types.{is_new, is_terminal_state, status_progress_rank}
use account_services.Book.State.{OrderEntry, OrderBook, find_order}
use account_services.Book.Refresh.{Totals, initial_totals, outranks, add_child, sum_children}

-- The children that exist and are new orders.
unfoldable pub new_children : OrderBook → List ℕ → List OrderEntry
new_children b [] = []
new_children b (id ∷ ids) =
    let rest = new_children b ids in
    elim (find_order id b) [
      | none ↦ rest
      | some child ↦ if is_new child.request.order_type then child ∷ rest else rest
    ]

add_all : List OrderEntry → Totals → Totals
add_all [] t = t
add_all (c ∷ cs) t = add_all cs (add_child c t)

sum_children-new :
    (b : OrderBook) (ids : List ℕ) (t : Totals)
    → sum_children b ids t ≡ add_all (new_children b ids) t
unfolding sum_children new_children add_all
sum_children-new b [] t = refl
sum_children-new b (id ∷ ids) t = elim (Option-cases (find_order id b)) [
  | inl absent ↦ ground (arith, sum_children-new b ids t)
  | inr (child, at) ↦
      ground (arith, sum_children-new b ids t, sum_children-new b ids (add_child child t))
]

saturating_sum : ℕ → List ℕ → ℕ
saturating_sum acc [] = acc
saturating_sum acc (x ∷ xs) = saturating_sum (saturating_add acc x) xs

abbrev pub sum : List ℕ → ℕ
sum [] = 0
sum (x ∷ xs) = x + sum xs

saturating_sum_lem :
    (acc : ℕ) (xs : List ℕ)
    → acc < u64_mod
    → All (λ x. x < u64_mod) xs
    → saturating_sum acc xs ≡ min u64_max (acc + sum xs)
unfolding saturating_sum
saturating_sum_lem acc [] h all = omega arith
saturating_sum_lem acc (x ∷ xs) h all = omega (
  arith,
  saturating_sum_lem (saturating_add acc x) xs (saturating_add-lt acc x) all.1,
  saturating_add_lem acc x h all.0,
)

-- What the four sums are of.
abbrev pub traded_volumes : List OrderEntry → List ℕ
traded_volumes = map (λ c. c.request.volume_traded)

abbrev pub remaining_volumes : List OrderEntry → List ℕ
remaining_volumes = map (λ c. c.request.volume_remain)

abbrev pub traded_values : List OrderEntry → List ℕ
traded_values = map (λ c. c.request.dvalue_traded)

abbrev pub executed_fees : List OrderEntry → List ℕ
executed_fees = map (λ c. c.request.dfee_executed)

add_all_sums :
    (cs : List OrderEntry) (t : Totals)
    → ((add_all cs t).total_volume_traded
        ≡ saturating_sum t.total_volume_traded (traded_volumes cs))
      × ((add_all cs t).total_volume_remain
          ≡ saturating_sum t.total_volume_remain (remaining_volumes cs))
      × ((add_all cs t).total_dvalue_traded
          ≡ saturating_sum t.total_dvalue_traded (traded_values cs))
      × ((add_all cs t).total_fee ≡ saturating_sum t.total_fee (executed_fees cs))
      × ((add_all cs t).new_child_count ≡ t.new_child_count + length cs)
unfolding add_all saturating_sum add_child
add_all_sums [] t = (refl, refl, refl, refl, omega arith)
add_all_sums (c ∷ cs) t =
    let ih = add_all_sums cs (add_child c t) in (ih.0, ih.1, ih.2, ih.3, omega (arith, ih.4))

-- Whether all children have ended.
abbrev pub all_ended : List OrderEntry → Bool
all_ended [] = true
all_ended (c ∷ cs) = is_terminal_state c.request.order_state && all_ended cs

add_all-all_terminal :
    (cs : List OrderEntry) (t : Totals)
    → (add_all cs t).all_terminal ≡ (t.all_terminal && all_ended cs)
unfolding add_all add_child
add_all-all_terminal [] t = ground arith
add_all-all_terminal (c ∷ cs) t = ground (arith, add_all-all_terminal cs (add_child c t))

abbrev pub rank_of : OrderEntry → ℕ
rank_of c = status_progress_rank c.request.order_state

-- The first of the most advanced ones.
abbrev pub IsFront : OrderEntry → List OrderEntry → Type 0
IsFront c cs =
    (before : List OrderEntry) × (after : List OrderEntry) × (cs ≡ before ++ c ∷ after)
    × All (λ d. rank_of d < rank_of c) before
    × All (λ d. rank_of d ≤ rank_of c) after

-- The best status of a loop is the one it began with, or that of the first of the most advanced.
abbrev IsBest : List OrderEntry → Totals → Totals → Type 0
IsBest cs t t' =
    ((t'.best_progress_status ≡ t.best_progress_status)
      × All (λ c. outranks (rank_of c) t.best_progress_rank ≡ false) cs)
    ⊎ ((c : OrderEntry) × IsFront c cs
        × (outranks (rank_of c) t.best_progress_rank ≡ true)
        × (t'.best_progress_status ≡ c.request.order_state))

cons-IsFront :
    (c d : OrderEntry) (cs : List OrderEntry)
    → IsFront d cs
    → rank_of c < rank_of d
    → IsFront d (c ∷ cs)
cons-IsFront c d cs (before, after, split, ahead, level) h =
    (c ∷ before, after, ap (λ l. c ∷ l) split, (h, ahead), level)

All-level :
    (n : ℕ) (cs : List OrderEntry)
    → All (λ c. outranks (rank_of c) (some n) ≡ false) cs
    → All (λ c. rank_of c ≤ n) cs
All-level n [] h = tt
All-level n (c ∷ cs) h = (ground (arith, h.0), All-level n cs h.1)

add_child_better :
    (c : OrderEntry) (t : Totals)
    → outranks (rank_of c) t.best_progress_rank ≡ true
    → ((add_child c t).best_progress_rank ≡ some (rank_of c))
      × ((add_child c t).best_progress_status ≡ c.request.order_state)
unfolding add_child
add_child_better c t h = ground arith

add_child_behind :
    (c : OrderEntry) (t : Totals)
    → outranks (rank_of c) t.best_progress_rank ≡ false
    → ((add_child c t).best_progress_rank ≡ t.best_progress_rank)
      × ((add_child c t).best_progress_status ≡ t.best_progress_status)
unfolding add_child
add_child_behind c t h = ground arith

after_better :
    (c : OrderEntry) (cs : List OrderEntry) (t t' : Totals)
    → outranks (rank_of c) t.best_progress_rank ≡ true
    → IsBest cs (add_child c t) t'
    → IsBest (c ∷ cs) t t'
after_better c cs t t' h (inl (same, behind)) =
    let (rank, status) = add_child_better c t h in
    inr (
      c,
      (
        [],
        cs,
        refl,
        tt,
        All-level (rank_of c) cs
            (subst (λ best. All (λ d. outranks (rank_of d) best ≡ false) cs) rank behind),
      ),
      h,
      same ∙ status,
    )
after_better c cs t t' h (inr (d, front, ahead, is_d)) =
    let (rank, status) = add_child_better c t h in
    inr (
      d,
      cons-IsFront c d cs front (ground (arith, ahead, rank)),
      ground (arith, ahead, rank, h),
      is_d,
    )

after_behind :
    (c : OrderEntry) (cs : List OrderEntry) (t t' : Totals)
    → outranks (rank_of c) t.best_progress_rank ≡ false
    → IsBest cs (add_child c t) t'
    → IsBest (c ∷ cs) t t'
after_behind c cs t t' h (inl (same, behind)) =
    let (rank, status) = add_child_behind c t h in
    inl (
      same ∙ status,
      (h, subst (λ best. All (λ d. outranks (rank_of d) best ≡ false) cs) rank behind),
    )
after_behind c cs t t' h (inr (d, front, ahead, is_d)) =
    let (rank, status) = add_child_behind c t h in
    inr (d, cons-IsFront c d cs front (ground (arith, ahead, rank, h)), rw rank at ahead, is_d)

add_all-IsBest : (cs : List OrderEntry) (t : Totals) → IsBest cs t (add_all cs t)
unfolding add_all
add_all-IsBest [] t = inl (refl, tt)
add_all-IsBest (c ∷ cs) t =
    let later = add_all-IsBest cs (add_child c t) in
    elim (Bool-cases (outranks (rank_of c) t.best_progress_rank)) [
      | inl better ↦ after_better c cs t (add_all cs (add_child c t)) better later
      | inr behind ↦ after_behind c cs t (add_all cs (add_child c t)) behind later
    ]

-- A loop over one child or more ends with the status of the first of the most advanced.
add_all-IsFront :
    (cs : List OrderEntry) (t : Totals)
    → t.best_progress_rank ≡ none
    → 0 < length cs
    → (c : OrderEntry) × IsFront c cs
      × ((add_all cs t).best_progress_status ≡ c.request.order_state)
add_all-IsFront [] t fresh some_child = absurd (omega (arith, some_child))
add_all-IsFront (c ∷ cs) t fresh some_child = elim (add_all-IsBest (c ∷ cs) t) [
  | inl (same, behind) ↦ absurd (ground (arith, behind.0, fresh))
  | inr (d, front, ahead, is_d) ↦ (d, front, is_d)
]

-- What the loop of a refresh over some children leaves: the four saturated sums, whether all have
-- ended, and the status of the first of the most advanced.
pub record IsSummed (cs : List OrderEntry) (t : Totals) : Type 0 where
  pub traded : t.total_volume_traded ≡ min u64_max (sum (traded_volumes cs))
  pub remain : t.total_volume_remain ≡ min u64_max (sum (remaining_volumes cs))
  pub value : t.total_dvalue_traded ≡ min u64_max (sum (traded_values cs))
  pub fee : t.total_fee ≡ min u64_max (sum (executed_fees cs))
  pub number : t.new_child_count ≡ length cs
  pub ended : t.all_terminal ≡ all_ended cs
  pub progress : (c : OrderEntry) × IsFront c cs × (t.best_progress_status ≡ c.request.order_state)

-- The amounts of an order are 64-bit values.
abbrev pub HasWords : OrderEntry → Type 0
HasWords c =
    (c.request.volume_traded < u64_mod)
    × (c.request.volume_remain < u64_mod)
    × (c.request.dvalue_traded < u64_mod)
    × (c.request.dfee_executed < u64_mod)

module _ {f : OrderEntry → ℕ} (word : (c : OrderEntry) → HasWords c → f c < u64_mod) where
  All-words : (cs : List OrderEntry) → All HasWords cs → All (λ x. x < u64_mod) (map f cs)
  All-words [] h = tt
  All-words (c ∷ cs) h = (word c h.0, All-words cs h.1)

pub sum_children-IsSummed :
    (b : OrderBook) (ids : List ℕ) (parent : OrderEntry)
    → 0 < length (new_children b ids)
    → All HasWords (new_children b ids)
    → IsSummed (new_children b ids) (sum_children b ids (initial_totals parent))
sum_children-IsSummed b ids parent some_child h =
    let cs = new_children b ids in
    let start = initial_totals parent in
    let sums = add_all_sums cs start in
    rw (sum_children-new b ids start) (record {
      traded =
          sums.0
          ∙ saturating_sum_lem 0 (traded_volumes cs) (omega arith) (All-words (λ c w. w.0) cs h)
          ∙ ap (min u64_max) (omega arith);
      remain =
          sums.1
          ∙ saturating_sum_lem 0 (remaining_volumes cs) (omega arith) (All-words (λ c w. w.1) cs h)
          ∙ ap (min u64_max) (omega arith);
      value =
          sums.2
          ∙ saturating_sum_lem 0 (traded_values cs) (omega arith) (All-words (λ c w. w.2) cs h)
          ∙ ap (min u64_max) (omega arith);
      fee =
          sums.3
          ∙ saturating_sum_lem 0 (executed_fees cs) (omega arith) (All-words (λ c w. w.3) cs h)
          ∙ ap (min u64_max) (omega arith);
      number = sums.4 ∙ omega arith;
      ended = add_all-all_terminal cs start;
      progress = add_all-IsFront cs start refl some_child;
    })
