-- ===== src/CoordlPlan/Shares.antt =====
-- A CoorDL plan has the number of batches that was asked for, dealt to the owners in turn within an epoch.
use ad_artifacts.Base.{
  str_append, ℕ, zero, suc, ◌+◌, ◌-◌, ◌%◌, ◌≤◌, ◌<◌, ◌≡◌, refl, Bool, true, false, ◌&&◌, List, [],
  ◌∷◌, ◌++◌, arith, ltb, leb, eqb, length, take, drop, All, Bool-cases, inl, inr, length-append,
  length-take,
}
use ad_artifacts.Base.Decimal.{show_ℕ}
use ad_artifacts.Base.Int.{ℤ, pos}
use ad_artifacts.Core.{ok}
use ad_artifacts.Planner.{range_length}
use ad_artifacts.CoordlPlan.{
  CoorDlBatchPlanEntry, range_from, make_entry, plan_epoch, plan_epochs, epoch_order,
  build_coordl_batch_plan, entry_id,
}

All-append {ℓ κ} :
    {A : Type ℓ} (P : A → Type κ) (xs ys : List A) → All P xs → All P ys → All P (xs ++ ys)
All-append P [] ys h k = k
All-append P (x ∷ xs) ys (p, h) k = (p, All-append P xs ys h k)

-- An entry that is dealt to an owner by its index in the epoch, with at most a batch of samples.
abbrev pub IsShare : ℕ → ℕ → CoorDlBatchPlanEntry → Type 0
IsShare batch_size num_jobs e =
    (e.owner_index ≡ e.batch_index % num_jobs)
    × (e.batch_id
        ≡ str_append "e" (str_append (show_ℕ e.epoch) (str_append "_b" (show_ℕ e.batch_index))))
    × (length e.sample_indices ≤ batch_size)

-- A plan whose batches are numbered in turn: the next batch is the `index`-th of its epoch, and a new epoch, which
-- only follows one with a batch, starts at 0.
pub data InTurn : List CoorDlBatchPlanEntry → ℕ → ℕ → Type 0 where
  empty : InTurn [] 0 0
  next :
      {plan : List CoorDlBatchPlanEntry} {epoch index : ℕ}
      → InTurn plan epoch index
      → (entry : CoorDlBatchPlanEntry) → entry.epoch ≡ epoch
      → entry.batch_index ≡ index
      → InTurn (plan ++ entry ∷ []) epoch (index + 1)
  turn :
      {plan : List CoorDlBatchPlanEntry} {epoch index : ℕ}
      → InTurn plan epoch index
      → 1 ≤ index
      → InTurn plan (epoch + 1) 0

pub length-range_from : (start n : ℕ) → length (range_from start n) ≡ n
length-range_from start zero = refl
length-range_from start (suc n) = ground (arith, length-range_from (start + 1) n)

length-epoch_order :
    (randperm : ℤ → ℕ → List ℕ)
    → ((s : ℤ) (n : ℕ) → length (randperm s n) ≡ n)
    → (shuffle : Bool) (seed : ℤ) (n epoch : ℕ)
    → length (epoch_order randperm shuffle seed n epoch) ≡ n
unfolding epoch_order
length-epoch_order randperm sized true seed n epoch = sized _ n
length-epoch_order randperm sized false seed n epoch = length-range_from 0 n

some_rounds : (n step : ℕ) → (rest : ℕ) × (range_length (suc n) (suc step) ≡ suc rest)
some_rounds n step = (range_length (suc n) (suc step) - 1, ground arith)

module _ (batch_size total num_jobs : ℕ) (drop_last : Bool) where
  -- The plan grows by the batches that the index counts, and stays within the total.
  abbrev Grows : ℕ → ℕ → List CoorDlBatchPlanEntry → List CoorDlBatchPlanEntry × ℕ → Type 0
  Grows epoch index plan (plan', index') =
      (length plan' + index ≡ length plan + index')
      × (index ≤ index')
      × (length plan' ≤ total)
      × All (IsShare batch_size num_jobs) plan'
      × InTurn plan' epoch index'

  entry-IsShare :
      (epoch index start : ℕ) (indices : List ℕ)
      → IsShare batch_size num_jobs
          (make_entry num_jobs epoch index (take batch_size (drop start indices)))
  unfolding make_entry entry_id
  entry-IsShare epoch index start indices =
      (refl, refl, ground (arith, length-take batch_size (drop start indices)))

  plan_epoch-Grows :
      (epoch : ℕ) (indices : List ℕ) (rounds start index : ℕ) (plan : List CoorDlBatchPlanEntry)
      → length plan < total
      → All (IsShare batch_size num_jobs) plan
      → InTurn plan epoch index
      → Grows epoch index plan
          (plan_epoch batch_size total num_jobs drop_last epoch indices rounds start index plan)
  unfolding plan_epoch
  plan_epoch-Grows epoch indices zero start index plan h shares turns =
      (refl, omega arith, omega arith, shares, turns)
  plan_epoch-Grows epoch indices (suc rounds) start index plan h shares turns =
      let group = take batch_size (drop start indices) in
      let entry = make_entry num_jobs epoch index group in
      let plan' = plan ++ entry ∷ [] in
      let longer : length plan' ≡ length plan + 1 = length-append plan (entry ∷ []) in
      let shares' =
        All-append (IsShare batch_size num_jobs) plan (entry ∷ []) shares
          (entry-IsShare epoch index start indices, tt) in
      let turns' : InTurn plan' epoch (index + 1) =
        InTurn.next turns entry (unfold make_entry in refl) (unfold make_entry in refl) in
      elim (Bool-cases (ltb (length group) batch_size && drop_last)) [
        | inl short ↦
            rw (short, plan_epoch)
              (plan_epoch-Grows epoch indices rounds (start + batch_size) index plan h shares turns)
        | inr full ↦ elim (Bool-cases (leb total (length plan'))) [
          | inl done ↦
              rw (full, done, plan_epoch) (omega arith, omega arith, omega arith, shares', turns')
          | inr more ↦
              let (grown, later, within, all, turned) =
                plan_epoch-Grows epoch indices rounds (start + batch_size) (index + 1) plan'
                  (ground (arith, more, longer)) shares' turns' in
              rw (full, more, plan_epoch) (omega arith, omega arith, within, all, turned)
        ]
      ]

  -- The first group of an epoch that is full, or short and kept, is planned.
  plan_epoch-some :
      (epoch : ℕ) (indices : List ℕ) (rounds : ℕ) (plan : List CoorDlBatchPlanEntry)
      → length plan < total
      → All (IsShare batch_size num_jobs) plan
      → InTurn plan epoch 0
      → (ltb (length indices) batch_size && drop_last) ≡ false
      → eqb (plan_epoch batch_size total num_jobs drop_last epoch indices (suc rounds) 0 0 plan).1 0
        ≡ false
  unfolding plan_epoch
  plan_epoch-some epoch indices rounds plan h shares turns kept =
      let group = take batch_size (drop 0 indices) in
      let entry = make_entry num_jobs epoch 0 group in
      let plan' = plan ++ entry ∷ [] in
      let longer : length plan' ≡ length plan + 1 = length-append plan (entry ∷ []) in
      let shares' =
        All-append (IsShare batch_size num_jobs) plan (entry ∷ []) shares
          (entry-IsShare epoch 0 0 indices, tt) in
      let turns' : InTurn plan' epoch (0 + 1) =
        InTurn.next turns entry (unfold make_entry in refl) (unfold make_entry in refl) in
      let full : (ltb (length group) batch_size && drop_last) ≡ false =
        ground (arith, length-take batch_size (drop 0 indices)) in
      elim (Bool-cases (leb total (length plan'))) [
        | inl done ↦ rw (full, done, plan_epoch) refl
        | inr more ↦
            let (_, later, _, _, _) =
              plan_epoch-Grows epoch indices rounds (0 + batch_size) (0 + 1) plan'
                (ground (arith, more, longer)) shares' turns' in
            rw (full, more, plan_epoch) (ground (arith, later))
      ]

  module _ (order : ℕ → List ℕ) (num_samples : ℕ)
      (sized : (epoch : ℕ) → length (order epoch) ≡ num_samples)
      (some_round : (rest : ℕ) × (range_length num_samples batch_size ≡ suc rest)) where
    -- With as much fuel as batches are missing the loop ends with the total.
    plan_epochs-total :
        (fuel epoch : ℕ) (plan : List CoorDlBatchPlanEntry)
        → length plan ≤ total
        → total ≤ length plan + fuel
        → All (IsShare batch_size num_jobs) plan
        → InTurn plan epoch 0
        → (ltb num_samples batch_size && drop_last) ≡ false
        → (result : List CoorDlBatchPlanEntry) × (plan_epochs batch_size total num_jobs drop_last
              order num_samples fuel epoch plan
            ≡ ok result)
          × ((length result ≡ total)
              × All (IsShare batch_size num_jobs) result
              × ((epoch' : ℕ) × (index' : ℕ) × InTurn result epoch' index'))
    unfolding plan_epochs
    plan_epochs-total zero epoch plan within enough shares turns kept =
        (plan, refl, (omega arith, shares, (epoch, 0, turns)))
    plan_epochs-total (suc fuel) epoch plan within enough shares turns kept =
        elim (Bool-cases (ltb (length plan) total)) [
          | inr done ↦
              (plan, rw (done, plan_epochs) refl, (ground arith, shares, (epoch, 0, turns)))
          | inl missing ↦
              let rounds = range_length num_samples batch_size in
              let next =
                plan_epoch batch_size total num_jobs drop_last epoch (order epoch) rounds 0 0
                  plan in
              let (grown, _, within', shares', turns') =
                plan_epoch-Grows epoch (order epoch) rounds 0 0 plan (ground arith) shares turns in
              let planned : eqb next.1 0 ≡ false = rw some_round.1 (
                plan_epoch-some epoch (order epoch) some_round.0 plan (ground arith) shares turns
                  (rw (sized epoch) kept)) in
              let (result, e, facts) =
                plan_epochs-total fuel (epoch + 1) next.0 within' (ground (arith, planned, grown))
                  shares' (InTurn.turn turns' (ground (arith, planned))) kept in
              (result, rw (missing, planned, plan_epochs) e, facts)
        ]

-- With positive numbers, orders that are as long as there are samples, and a dataset that has at least a
-- batch of samples where the last one is dropped, a plan of exactly the total number of batches is
-- returned. Its epochs count up from 0, the batches of an epoch from 0 without a gap; the owner of a batch is its index
-- in the epoch modulo the number of jobs, so that the turn starts at the first owner again with every epoch; its id is
-- `e{epoch}_b{index}`; and no batch has more samples than asked for.
pub build_coordl_batch_plan_lem :
    (randperm : ℤ → ℕ → List ℕ) (num_samples batch_size total_batches num_jobs : ℕ)
    (shuffle drop_last : Bool) (seed : ℤ)
    → ((s : ℤ) (n : ℕ) → length (randperm s n) ≡ n)
    → (ltb (suc num_samples) (suc batch_size) && drop_last) ≡ false
    → (plan : List CoorDlBatchPlanEntry) × (build_coordl_batch_plan randperm
          (pos (suc num_samples))
          (pos (suc batch_size))
          (pos (suc total_batches))
          (pos (suc num_jobs))
          shuffle
          drop_last
          seed
        ≡ ok plan)
      × ((length plan ≡ suc total_batches)
          × All (IsShare (suc batch_size) (suc num_jobs)) plan
          × ((epoch : ℕ) × (index : ℕ) × InTurn plan epoch index))
unfolding build_coordl_batch_plan
build_coordl_batch_plan_lem randperm num_samples batch_size total_batches num_jobs shuffle drop_last
      seed sized kept =
    let (plan, e, facts) =
      plan_epochs-total (suc batch_size) (suc total_batches) (suc num_jobs) drop_last
        (epoch_order randperm shuffle seed (suc num_samples)) (suc num_samples)
        (length-epoch_order randperm sized shuffle seed (suc num_samples))
        (some_rounds num_samples batch_size) (suc total_batches) 0 [] (omega arith) (omega arith) tt
        InTurn.empty kept in
    (plan, ground (arith, e), facts)
