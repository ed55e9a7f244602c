-- ===== src/Scheduler/Selection.antt =====
-- Which task and which batch come next.
use ad_artifacts.Base.{
  String, ◌≡◌, refl, Bool, true, false, not, some, List, [], ◌∷◌, arith, select, All, Bool-cases,
  List-cases, inl, inr, count_if, eqb, length, suc, ◌∙◌, ap, subst,
}
use ad_artifacts.Dict.{values}
use ad_artifacts.Floats.{Floats}
use ad_artifacts.Store.Jobs.{is_pending}
use ad_artifacts.Store.State.{Store, TaskState}
use ad_artifacts.Store.Tasks.{list_pending_tasks}
use ad_artifacts.Scheduler.Choose.{
  insert_descending, sort_descending, first, is_opportunistic_task, candidates_of,
  score_pending_task, choose_next_task_for_worker,
}

-- `<` orders the floats that occur as a weak order does, as it does where none of them is a NaN.
abbrev pub IsWeakOrder : (F : Type 0) ⦃f : Floats F⦄ → Type 0
IsWeakOrder F ⦃f⦄ =
    ((a b : F) → f.lt a b ≡ true → f.lt b a ≡ false)
    × ((a b c : F) → f.lt a b ≡ false → f.lt b c ≡ false → f.lt a c ≡ false)

module _ {F : Type 0} ⦃f : Floats F⦄ {A : Type 0} (key : A → F) where
  -- No element of a list has a greater key.
  abbrev pub IsMaximal : A → List A → Type 0
  IsMaximal x = All (λ y. f.lt (key x) (key y) ≡ false)

  all_lower :
      IsWeakOrder F
      → (x y : A) (ys : List A) → f.lt (key x) (key y) ≡ false
      → IsMaximal y ys
      → IsMaximal x ys
  all_lower order x y [] h hs = tt
  all_lower order x y (z ∷ zs) h (h', hs) =
      (order.1 (key x) (key y) (key z) h h', all_lower order x y zs h hs)

  -- The head of a sorted list has what all elements have, and no element is above it.
  abbrev IsBest : List A → List A → Type 0
  IsBest [] xs = xs ≡ []
  IsBest (x ∷ _) xs = IsMaximal x xs × ((p : A → Bool) → All (λ y. p y ≡ true) xs → p x ≡ true)

  self_lower : IsWeakOrder F → (x : A) → f.lt (key x) (key x) ≡ false
  self_lower order x = elim (Bool-cases (f.lt (key x) (key x))) [
    | inl above ↦ order.0 (key x) (key x) above
    | inr e ↦ e
  ]

  insert_descending-IsBest :
      IsWeakOrder F
      → (x : A) (sorted xs : List A) → IsBest sorted xs
      → IsBest (insert_descending key x sorted) (x ∷ xs)
  unfolding insert_descending
  insert_descending-IsBest order x [] xs h = rw h ((self_lower order x, tt), λ p all. all.0)
  insert_descending-IsBest order x (y ∷ ys) xs (h, h') = elim (Bool-cases (f.lt (key x) (key y))) [
    | inl below ↦ rw below ((order.0 (key x) (key y) below, h), λ p all. h' p all.1)
    | inr above ↦ rw above ((self_lower order x, all_lower order x y xs above h), λ p all. all.0)
  ]

  sort_descending-IsBest : IsWeakOrder F → (xs : List A) → IsBest (sort_descending key xs) xs
  unfolding sort_descending
  sort_descending-IsBest order [] = refl
  sort_descending-IsBest order (x ∷ xs) =
      insert_descending-IsBest order x (sort_descending key xs) xs (sort_descending-IsBest order xs)

  -- So a list that is not empty has a best element, which sorting brings to the front.
  pub first-sort_descending :
      IsWeakOrder F
      → (x : A) (xs : List A)
      → (best : A) × (first (sort_descending key (x ∷ xs)) ≡ some best)
        × IsMaximal best (x ∷ xs)
        × ((p : A → Bool) → All (λ y. p y ≡ true) (x ∷ xs) → p best ≡ true)
  first-sort_descending order x xs =
      found (sort_descending key (x ∷ xs)) (sort_descending-IsBest order (x ∷ xs))
    where
      found :
          (ys : List A)
          → IsBest ys (x ∷ xs)
          → (best : A) × (first ys ≡ some best)
            × IsMaximal best (x ∷ xs)
            × ((p : A → Bool) → All (λ y. p y ≡ true) (x ∷ xs) → p best ≡ true)
      found [] h = absurd (ground arith)
      found (y ∷ ys) (h, h') = (y, refl, h, h')

module _ {A : Type 0} (p : A → Bool) where
  All-select : (xs : List A) → All (λ x. p x ≡ true) (select p xs)
  All-select [] = tt
  All-select (x ∷ xs) = elim (Bool-cases (p x)) [
    | inl e ↦ rw e (e, All-select xs)
    | inr e ↦ rw e (All-select xs)
  ]

  All-select_of :
      (q : A → Bool) (xs : List A) → All (λ x. q x ≡ true) xs → All (λ x. q x ≡ true) (select p xs)
  All-select_of q [] h = tt
  All-select_of q (x ∷ xs) (h, hs) = elim (Bool-cases (p x)) [
    | inl e ↦ rw e (h, All-select_of q xs hs)
    | inr e ↦ rw e (All-select_of q xs hs)
  ]

  count-select : (xs : List A) → count_if p xs ≡ length (select p xs)
  count-select [] = refl
  count-select (x ∷ xs) = ground (arith, count-select xs)

  none_selected : (xs : List A) → select p xs ≡ [] → All (λ x. not (p x) ≡ true) xs
  none_selected [] h = tt
  none_selected (x ∷ xs) h = elim (Bool-cases (p x)) [
    | inl e ↦ absurd (ground arith)
    | inr e ↦ (ground arith, none_selected xs (ground arith))
  ]

abbrev pub is_normal : {F : Type 0} → TaskState F → Bool
is_normal t = not (is_opportunistic_task t)

module _ {F : Type 0} ⦃f : Floats F⦄ (order : IsWeakOrder F) where
  abbrev IsChosen : List (TaskState F) → TaskState F → Type 0
  IsChosen pending t =
      (is_pending t ≡ true)
      × (is_opportunistic_task t ≡ eqb (count_if is_normal pending) 0)
      × IsMaximal score_pending_task t (candidates_of pending)

  candidates_of-normal :
      (pending : List (TaskState F)) (n : TaskState F) (ns : List (TaskState F))
      → select is_normal pending ≡ n ∷ ns
      → candidates_of pending ≡ n ∷ ns
  unfolding candidates_of
  candidates_of-normal pending n ns normal = rw (normal, candidates_of) refl

  candidates_of-opportunistic :
      (pending : List (TaskState F))
      → select is_normal pending ≡ []
      → candidates_of pending ≡ pending
  unfolding candidates_of
  candidates_of-opportunistic pending normal = rw (normal, candidates_of) refl

  choose_normal :
      (pending : List (TaskState F)) (n : TaskState F) (ns : List (TaskState F))
      → All (λ t. is_pending t ≡ true) pending
      → select is_normal pending ≡ n ∷ ns
      → (t : TaskState F) × (first (sort_descending score_pending_task (candidates_of pending))
          ≡ some t)
        × IsChosen pending t
  choose_normal pending n ns waiting normal =
      let (t, chosen, maximal, shared) = first-sort_descending score_pending_task order n ns in
      let all_normal =
        subst (All (λ x. is_normal x ≡ true)) normal (All-select is_normal pending) in
      let all_waiting =
        subst (All (λ x. is_pending x ≡ true)) normal
          (All-select_of is_normal is_pending pending waiting) in
      let some_normal : count_if is_normal pending ≡ suc (length ns) =
        count-select is_normal pending ∙ ap length normal in
      let t_normal : not (is_opportunistic_task t) ≡ true = shared is_normal all_normal in
      (
        t,
        rw (candidates_of-normal pending n ns normal) chosen,
        (
          shared is_pending all_waiting,
          rw some_normal (ground (arith, t_normal)),
          rw (candidates_of-normal pending n ns normal) maximal,
        ),
      )

  choose_opportunistic :
      (pending : List (TaskState F)) (p : TaskState F) (ps : List (TaskState F))
      → pending ≡ p ∷ ps
      → All (λ t. is_pending t ≡ true) pending
      → select is_normal pending ≡ []
      → (t : TaskState F) × (first (sort_descending score_pending_task (candidates_of pending))
          ≡ some t)
        × IsChosen pending t
  choose_opportunistic pending p ps e waiting normal =
      let (t, chosen, maximal, shared) = first-sort_descending score_pending_task order p ps in
      let no_normal =
        subst (All (λ x. not (is_normal x) ≡ true)) e (none_selected is_normal pending normal) in
      let none_counted : count_if is_normal pending ≡ 0 =
        count-select is_normal pending ∙ ap length normal in
      let t_special : not (is_normal t) ≡ true = shared (λ x. not (is_normal x)) no_normal in
      (
        t,
        rw (candidates_of-opportunistic pending normal, e) chosen,
        (
          shared is_pending (subst (All (λ x. is_pending x ≡ true)) e waiting),
          rw none_counted (ground (arith, t_special)),
          rw (candidates_of-opportunistic pending normal, e) maximal,
        ),
      )

-- Where `<` is a weak order on the floats: as soon as a task waits, a worker is given one. It is a waiting
-- task, it is opportunistic exactly if no normal task waits, and no task that it competed with has a
-- higher priority.
pub choose_next_task_for_worker_lem :
    {F : Type 0} ⦃f : Floats F⦄ (worker_id : String) (s : Store F) (p : TaskState F)
    (ps : List (TaskState F))
    → IsWeakOrder F
    → list_pending_tasks s ≡ p ∷ ps
    → (t : TaskState F) × (choose_next_task_for_worker worker_id s ≡ some t)
      × ((is_pending t ≡ true)
          × (is_opportunistic_task t ≡ eqb (count_if is_normal (list_pending_tasks s)) 0)
          × IsMaximal score_pending_task t (candidates_of (list_pending_tasks s)))
unfolding choose_next_task_for_worker list_pending_tasks
choose_next_task_for_worker_lem worker_id s p ps order waiting =
    let all_pending = All-select is_pending (values s.tasks) in
    elim (List-cases (select is_normal (list_pending_tasks s))) [
      | inl no_normal ↦
          let (t, chosen, is_chosen) =
            choose_opportunistic order (list_pending_tasks s) p ps waiting all_pending no_normal in
          (t, chosen, is_chosen)
      | inr (n, ns, normal) ↦
          let (t, chosen, is_chosen) =
            choose_normal order (list_pending_tasks s) n ns all_pending normal in
          (t, chosen, is_chosen)
    ]
