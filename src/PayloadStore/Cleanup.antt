-- ===== src/PayloadStore/Cleanup.antt =====
-- What a cleanup of a worker's payloads removes, and what it keeps.
use ad_artifacts.Base.{
  ℕ, String, ◌≡◌, refl, Bool, false, Option, none, some, List, [], ◌∷◌, arith, eq_iff,
  if◌then◌else◌, count_if, length,
}
use ad_artifacts.Dict.{get, remove, values, member}
use ad_artifacts.Dict.Laws.{get-remove}
use ad_artifacts.Dict.Distinct.{IsDistinct, put-IsDistinct, remove-IsDistinct, update-IsDistinct}
use ad_artifacts.Floats.{Floats}
use ad_artifacts.PayloadStore.{
  StoredPayload, Payloads, is_overdue, expired_keys, remove_keys, cleanup_expired, PayloadCall,
  put_call, get_call, remove_call, clear_call, cleanup_call, payload_step, payload_run, put_payload,
  get_payload, remove_stored,
}

get-remove_keys :
    (k : String) (keys : List String) (d : Payloads)
    → get k (remove_keys keys d) ≡ (if member k keys then none else get k d)
unfolding remove_keys member
get-remove_keys k [] d = refl
get-remove_keys k (j ∷ keys) d =
    ground (arith, get-remove_keys k keys (remove j d), get-remove j k d)

-- The stored payload, unless it is overdue.
abbrev pub kept : ℕ → Option StoredPayload → Option StoredPayload
kept now none = none
kept now (some p) = if is_overdue now p then none else some p

abbrev overdue_at : ℕ → Option StoredPayload → Bool
overdue_at now none = false
overdue_at now (some p) = is_overdue now p

member-expired_keys :
    (now : ℕ) (k : String) (d : Payloads)
    → IsDistinct d
    → member k (expired_keys now d) ≡ overdue_at now (get k d)
unfolding expired_keys member get
member-expired_keys now k [] h = refl
member-expired_keys now k ((i, p) ∷ d) h =
    ground (arith, member-expired_keys now k d h.1, eq_iff i k, h.0)

length-expired_keys :
    (now : ℕ) (d : Payloads) → length (expired_keys now d) ≡ count_if (is_overdue now) (values d)
unfolding expired_keys
length-expired_keys now [] = refl
length-expired_keys now ((i, p) ∷ d) = ground (arith, length-expired_keys now d)

remove_keys-IsDistinct :
    (keys : List String) (d : Payloads) → IsDistinct d → IsDistinct (remove_keys keys d)
unfolding remove_keys
remove_keys-IsDistinct [] d h = h
remove_keys-IsDistinct (k ∷ keys) d h =
    remove_keys-IsDistinct keys (remove k d) (remove-IsDistinct k d h)

module _ {F : Type 0} ⦃f : Floats F⦄ where
  payload_step-IsDistinct :
      (c : PayloadCall F) (d : Payloads) → IsDistinct d → IsDistinct (payload_step c d)
  unfolding payload_step put_payload get_payload remove_stored cleanup_expired
  payload_step-IsDistinct (put_call now key payload format ttl) d h = put-IsDistinct key _ d h
  payload_step-IsDistinct (get_call now key) d h = update-IsDistinct key _ d h
  payload_step-IsDistinct (remove_call key) d h = remove-IsDistinct key d h
  payload_step-IsDistinct clear_call d h = tt
  payload_step-IsDistinct (cleanup_call now) d h = remove_keys-IsDistinct (expired_keys now d) d h

  payload_run-IsDistinct :
      (cs : List (PayloadCall F)) (d : Payloads) → IsDistinct d → IsDistinct (payload_run cs d)
  unfolding payload_run
  payload_run-IsDistinct [] d h = h
  payload_run-IsDistinct (c ∷ cs) d h =
      payload_run-IsDistinct cs (payload_step c d) (payload_step-IsDistinct c d h)

  -- After any calls on a new store, a cleanup keeps under each key the payload that is there unless it is
  -- overdue, and it returns the number of overdue payloads.
  pub cleanup_expired_lem :
      (cs : List (PayloadCall F)) (now : ℕ) (k : String)
      → let d = payload_run cs [] in
        let (removed, d') = cleanup_expired now d in
        (get k d' ≡ kept now (get k d)) × (removed ≡ count_if (is_overdue now) (values d))
  unfolding cleanup_expired
  cleanup_expired_lem cs now k =
      let d = payload_run cs [] in
      (
        ground (
          arith,
          get-remove_keys k (expired_keys now d) d,
          member-expired_keys now k d (payload_run-IsDistinct cs [] tt),
        ),
        length-expired_keys now d,
      )
